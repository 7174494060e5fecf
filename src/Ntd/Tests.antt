-- ===== src/Ntd/Tests.antt =====
-- Examples of the theorems on NTD devices and their disks.
use amlnf.Prelude.{
  List, ◌&&◌, ◌%◌, ◌-◌, ◌==◌, if◌then◌else◌, false, ℕ, zero, ◌≡◌, ◌≤◌, ◌⊎◌, refl, true, arith, none,
  some, [], ◌∷◌, ◌++◌,
}
use amlnf.Prelude.Int.{pos, neg, negsuc}
use amlnf.Phy.Chip.{ChipState, World}
use amlnf.Phy.Lock.{amlnand_get_device, taken}
use amlnf.Dev.Phydev.{Phydev}
use amlnf.Ntd.{NtdInfo}
use amlnf.Ntd.Part.{
  Methods, Allocated, with_ops, read_page_with_oob, write_page_with_oob, allocate_partition,
  new_slave, checked_flags, del_ntd_partitions,
}
use amlnf.Ntd.Part.Count.{bad_blocks}
use amlnf.Ntd.Part.Counted.{methods, is_bad, allocate-bad_blocks}
use amlnf.Ntd.Part.Deleted.{kept_slaves, deleting, IsKept, del_partitions-IsKept}
use amlnf.Phy.Bbt.{Table}
use amlnf.Ntd.Part.Page.{
  phydev_methods, read_one, write_one, read_page-chip_page, write_page-chip_page,
}
use amlnf.Ntd.Core.{
  Core, add_ntd_device, del_ntd_device, get_ntd_device, put_ntd_device, get_ntd_device_nm, enodev,
  ntd_kmalloc_up_to, ebusy, idr_find,
}
use amlnf.Ntd.Core.Search.{search-finds_none}
use amlnf.Ntd.Core.Use.{add-get-put-del}
use amlnf.Ntd.Core.Backoff.{kmalloc_up_to-returns}
use amlnf.Ntd.Blkdevs.{
  BlktransDev, ntd_queue_rq, ntd_next_request, serve, add_ntd_blktrans_dev, blktrans_open,
  blktrans_release, DiskCalls, disk_result,
}
use amlnf.Ntd.Blkdevs.Sorted.{IsAdded, made_ready, last_minor, add_dev-IsAdded}
use amlnf.Ntd.Blkdevs.Queue.{
  Run, Steps, submit, take, finish, done, more, all_requests, Steps-all_requests,
}
use amlnf.Ntd.Blkdevs.Open.{Opened, Closed, open_release-Users}
use amlnf.Samples.{
  Log, sample_kernel, sample_calls, sample_flash, logged, sample_op, sample_phydev, sample_world,
  sample_ntd, sample_core, sample_calls_core, sample_dev, sample_tr, sample_request,
}

-- The entry of every third block of the first chip is not 0.
abbrev third_bad : Table
third_bad chip block = if (chip == 0) && (block % 3 == 0) then 1 else 0

abbrev table_world : World Log
table_world = record sample_world {
  chip = record (sample_world.chip) { blk_status = some third_bad };
}

abbrev sample_methods : Methods Log
sample_methods = methods sample_kernel sample_calls logged third_bad sample_flash

abbrev sample_slave : NtdInfo
sample_slave = record (new_slave sample_methods 16 1 sample_phydev) {
  flags = checked_flags sample_methods (new_slave sample_methods 16 1 sample_phydev);
}

allocate-bad_blocks_example :
    (r : Allocated × Phydev × World Log) × (allocate_partition sample_methods 16 1 sample_phydev
        table_world
      ≡ some r)
    × (r.0
        ≡ Allocated.made (record sample_slave {
          badblocks =
              bad_blocks
                (is_bad sample_kernel sample_calls logged third_bad sample_flash sample_slave
                  sample_phydev)
                64
                0;
        }))
unfolding new_slave
allocate-bad_blocks_example =
    allocate-bad_blocks sample_kernel sample_calls logged third_bad sample_flash 16 1 sample_phydev
      table_world (λ e. absurd (omega arith)) (omega arith) (omega arith) (λ pin d. refl)
      (record { not_slc = refl; one_plane = refl; one_chip = refl; is_up = refl })
      (record {
        is_free = record { is_ready_chip = refl; is_unlocked = refl };
        has_table = refl;
        has_flash = refl;
      })

-- Slave 16 is idle, 17 has a user, and 18 is of another master.
abbrev three_slaves : List NtdInfo
three_slaves =
    record sample_ntd { addr = 16 }
    ∷ record sample_ntd { addr = 17 }
    ∷ record sample_ntd { addr = 18; priv = 2 }
    ∷ []

abbrev three_core : Core
three_core = record {
  ntd_idr = (0, 16) ∷ (1, 17) ∷ (2, 18) ∷ [];
  info = λ a. record sample_ntd { addr = a; index = a - 16; usecount = if a == 17 then 1 else 0 };
  init_available = false;
}

del_partitions-IsKept_example :
    IsKept 1 three_slaves three_core (del_ntd_partitions deleting 1 three_slaves three_core (pos 0))
del_partitions-IsKept_example = del_partitions-IsKept 1 three_slaves three_core (pos 0) (
  ((λ e. absurd (omega (arith, e))), ((λ e. absurd (omega (arith, e))), record {})),
  (((λ e. absurd (omega (arith, e))), record {}), (record {}, record {})),
)

-- What is left of them on the list
three_kept :
    kept_slaves three_core 1 three_slaves
    ≡ record sample_ntd { addr = 17 } ∷ record sample_ntd { addr = 18; priv = 2 } ∷ []
unfolding kept_slaves idr_find
three_kept = refl

-- Page 5 of the device is page 2053 of the chip.
read_page-chip_page_example :
    read_page_with_oob
      (phydev_methods sample_kernel sample_op)
      sample_ntd
      5
      0
      1024
      sample_phydev
      sample_world
    ≡ read_one sample_kernel sample_op
        (with_ops sample_phydev 10240 2048 64 1024 0)
        2053
        (taken sample_kernel sample_world ChipState.reading)
unfolding amlnand_get_device
read_page-chip_page_example =
    read_page-chip_page sample_kernel sample_op sample_ntd sample_phydev 5 0 1024 sample_world
      (taken sample_kernel sample_world ChipState.reading)
      (record {
        same_page = refl;
        same_shift = refl;
        page_bytes = refl;
        in_reach = omega arith;
        no_wrap = omega arith;
        not_slc = refl;
      })
      (omega arith) (λ v. refl) refl

write_page-chip_page_example :
    write_page_with_oob
      (phydev_methods sample_kernel sample_op)
      sample_ntd
      5
      0
      1024
      sample_phydev
      sample_world
    ≡ write_one sample_kernel sample_op
        (with_ops sample_phydev 10240 2048 64 1024 0)
        2053
        (taken sample_kernel sample_world ChipState.writing)
unfolding amlnand_get_device
write_page-chip_page_example =
    write_page-chip_page sample_kernel sample_op sample_ntd sample_phydev 5 0 1024 sample_world
      (taken sample_kernel sample_world ChipState.writing)
      (record {
        same_page = refl;
        same_shift = refl;
        page_bytes = refl;
        in_reach = omega arith;
        no_wrap = omega arith;
        not_slc = refl;
      })
      (omega arith) refl (λ v. refl) refl

add-get-put-del_example :
    let calls = sample_calls_core (pos 0) in
    (c1 : Core) × (c2 : Core) × (c3 : Core) × (add_ntd_device calls sample_core 16 ≡ some (0, c1))
    × (get_ntd_device calls c1 0 (pos 3) ≡ ((pos 0, 16), c2))
    × (del_ntd_device c2 16 ≡ (neg ebusy, c2))
    × (put_ntd_device c2 16 ≡ some c3)
    × ((del_ntd_device c3 16).0 ≡ pos 0)
    × ((del_ntd_device c3 16).1.ntd_idr ≡ [])
unfolding idr_find
add-get-put-del_example =
    add-get-put-del (sample_calls_core (pos 0)) sample_core 16 3
      (record {
        has_pages = λ e. absurd (omega arith);
        given = refl;
        unused = refl;
        is_set_up = refl;
      })
      refl refl

-- Device 16 is there with number 3, and is not found by its address.
abbrev core_with : Core
core_with = record sample_core { ntd_idr = (3, 16) ∷ [] }

search-finds_none_example :
    (get_ntd_device (sample_calls_core (pos 0)) core_with 16 (negsuc zero)
      ≡ ((neg enodev, 0), core_with))
    × (get_ntd_device_nm (sample_calls_core (pos 0)) core_with (b'a' ∷ []) ≡ none)
search-finds_none_example =
    search-finds_none (sample_calls_core (pos 0)) core_with 16 (b'a' ∷ [])
      (λ e. absurd (omega arith), record {}) (λ e. ground arith)

-- No memory at all
kmalloc_up_to-returns_example :
    (r : ℕ × ℕ) × (ntd_kmalloc_up_to 4096 4194304 (λ n. 0) 2048 100000 ≡ some r)
    × (r.0 ≡ 0)
    × (r.1 ≤ 100000)
    × (r.1 ≤ 4194304)
    × ((r.0 ≡ 0) → (r.1 ≤ 2048) ⊎ (r.1 ≤ 4096))
kmalloc_up_to-returns_example =
    kmalloc_up_to-returns 4096 4194304 (λ n. 0) 2048 100000 (omega arith) (omega arith)

abbrev disk_calls : DiskCalls
disk_calls = record {
  workqueue = true;
  kzalloc = true;
  alloc_tag_set = pos 0;
  alloc_disk = pos 0;
  add_disk = pos 0;
}

add_dev-IsAdded_example :
    IsAdded
      (made_ready sample_tr (sample_dev 5))
      (last_minor sample_tr)
      (pos 0)
      (sample_dev 2 ∷ sample_dev 9 ∷ [])
      (add_ntd_blktrans_dev sample_tr disk_calls (sample_dev 5) (sample_dev 2 ∷ sample_dev 9 ∷ []))
unfolding disk_result
add_dev-IsAdded_example =
    add_dev-IsAdded sample_tr disk_calls (sample_dev 5) (sample_dev 2 ∷ sample_dev 9 ∷ [])
      ((omega arith, record {}), (record {}, record {}))

abbrev idle_run : Run Log
idle_run = record { dev = sample_dev 1; current = none; ended = []; medium = [] }

abbrev submitted_run : Run Log
submitted_run = record idle_run { dev = (ntd_queue_rq sample_request idle_run.dev).1 }

abbrev taken_run : Run Log
taken_run = record submitted_run { dev = sample_dev 1; current = some sample_request }

abbrev served_run : Run Log
served_run = record taken_run {
  current = none;
  ended = (sample_request, (serve sample_tr sample_request []).0) ∷ [];
  medium = (serve sample_tr sample_request []).1;
}

-- A request comes in, is taken and is ended.
served-Steps : Steps sample_tr idle_run (sample_request ∷ []) served_run
unfolding ntd_queue_rq ntd_next_request
served-Steps =
    more idle_run taken_run served_run (sample_request ∷ []) []
      (more idle_run submitted_run taken_run (sample_request ∷ []) []
        (more idle_run idle_run submitted_run [] (sample_request ∷ []) (done idle_run)
          (submit idle_run sample_request))
        (take submitted_run sample_request (sample_dev 1) refl refl))
      (finish taken_run sample_request refl)

Steps-all_requests_example :
    all_requests sample_tr served_run ≡ all_requests sample_tr idle_run ++ (sample_request ∷ [])
Steps-all_requests_example = Steps-all_requests sample_tr served-Steps

abbrev opened_dev : BlktransDev
opened_dev = record (sample_dev 1) { open_count = 1; ref = 2 }

open_release-Users_example :
    Opened 1 0 (blktrans_open sample_tr (some (sample_dev 1)) [])
    × Closed 1 0 (blktrans_release sample_tr (some opened_dev) [])
open_release-Users_example =
    open_release-Users sample_tr 1 0 (sample_dev 1) opened_dev [] (omega arith)
      (record { users = refl; refs = refl }) (record { users = refl; refs = refl })
