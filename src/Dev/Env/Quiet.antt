-- ===== src/Dev/Env/Quiet.antt =====
-- dev/amlnf_env.c: what is asked of the kernel's calls, and the buffer of a save.
use amlnf.Prelude.{
  ℕ, ◌≤◌, ◌≡◌, some, List, ◌∙◌, arith, take, replicate, length, length-take, length-replicate,
}
use amlnf.Phy.Info.{Geometry, Store, Target}
use amlnf.Phy.Info.Bytes.{paste, length-paste, take-append, take-take}
use amlnf.Phy.Info.Medium.{Medium}
use amlnf.Dev.Env.{EnvCalls, env_bytes}

-- What the calls of the kernel promise here: memory is had, and the pages of the flash are left.
-- `user` is what the user's buffer holds.
pub record Quiet {D : Type 0} {s : Store D} (m : Medium s) (calls : EnvCalls D) (user : List ℕ)
    : Type 0 where
  pub memory : ℕ → D → List ℕ
  pub vmalloc-some : (n : ℕ) (d : D) → (calls.vmalloc n d).0 ≡ some (memory n d)
  pub length-memory : (n : ℕ) (d : D) → length (memory n d) ≡ n
  pub peek-vmalloc : (n : ℕ) (d : D) (t : Target) → m.peek t (calls.vmalloc n d).1 ≡ m.peek t d
  pub peek-get : (d : D) (t : Target) → m.peek t (calls.get_device d) ≡ m.peek t d
  pub peek-release : (d : D) (t : Target) → m.peek t (calls.release_device d) ≡ m.peek t d
  pub copy-arrives : (n : ℕ) (d : D) → (calls.copy_from_user n d).0 ≡ take n user
  pub peek-copy : (n : ℕ) (d : D) (t : Target) → m.peek t (calls.copy_from_user n d).1 ≡ m.peek t d

-- The buffer of a save of the whole environment
pub take-env_bytes :
    {D : Type 0} (s : Store D) (g : Geometry) (calls : EnvCalls D) (size : ℕ) (memory buf : List ℕ)
    → size ≤ length buf
    → take size (env_bytes s g calls size memory buf size) ≡ take size buf
take-env_bytes s g calls size memory buf a =
    take-append size (take size buf) _ (omega (arith, length-take size buf))
    ∙ take-take size size buf (omega arith)

pub length-env_bytes :
    {D : Type 0} (s : Store D) (g : Geometry) (calls : EnvCalls D) (size : ℕ) (memory buf : List ℕ)
    → size ≤ length memory
    → length (env_bytes s g calls size memory buf size) ≡ length memory
length-env_bytes s g calls size memory buf a =
    let n = length-replicate {A = ℕ} size 0 in
    let z = length-paste memory 0 (replicate size 0) (omega (arith, n)) in
    length-paste (paste memory 0 (replicate size 0)) 0 (take size buf)
      (omega (arith, z, length-take size buf))
    ∙ z
