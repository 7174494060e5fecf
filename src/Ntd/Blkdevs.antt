-- ===== src/Ntd/Blkdevs.antt =====
-- ntd/aml_ntd_blkdevs.c: the disks, their requests and their users. The block layer's allocations
-- and registrations are parameters.
pub mod Sorted
pub mod Queue
pub mod Open
use amlnf.Prelude.{
  ℕ, zero, suc, ◌+◌, ◌-◌, ◌*◌, ◌/◌, ◌%◌, ◌^◌, Bool, true, false, ◌&&◌, ◌||◌, not, Option, none,
  some, List, [], ◌∷◌, ◌++◌, ◌==◌, ltb, if◌then◌else◌,
}
use amlnf.Prelude.Int.{ℤ, pos, negsuc, neg, is_neg, is_zero}
use amlnf.Prelude.Words.{u32, u64, shr}

abbrev pub ebusy : ℕ
ebusy = 16

abbrev pub enomem : ℕ
enomem = 12

abbrev pub enxio : ℕ
enxio = 6

-- What a request asks for: `req_op`. `other` is any operation that no case names.
pub data Op : Type 0 where
  read write flush discard write_zeroes other : Op

-- A segment of a request: the address of its buffer and its bytes.
pub record Segment : Type 0 where
  pub buf : ℕ
  pub bv_len : ℕ

-- struct request: the sectors are of 512 bytes. `sync` is REQ_SYNC.
pub record Request : Type 0 where
  pub tag : ℕ
  pub op : Op
  pub sync : Bool
  pub start : ℕ
  pub sectors : ℕ
  pub segments : List Segment

-- blk_status_t, as far as it is used
pub data Status : Type 0 where
  ok ioerr : Status

-- struct ntd_blktrans_dev, the fields that the modelled code reads or writes
pub record BlktransDev : Type 0 where
  pub devnum : ℕ
  pub size : ℕ
  pub readonly : ℕ
  pub open_count : ℕ
  pub ref : ℕ
  pub rq_list : List Request
  pub name : List ℕ

-- struct ntd_blktrans_ops: a method that is NULL is none.
pub record BlktransOps (D : Type 0) : Type 0 where
  pub part_bits : ℕ
  pub blksize : ℕ
  pub blkshift : ℕ
  pub readsect : Option (ℕ → ℕ → D → ℤ × D)
  pub writesect : Option (ℕ → ℕ → D → ℤ × D)
  pub discard : Option (ℕ → ℕ → D → ℤ × D)
  pub flush : Option (D → ℤ × D)
  pub open_dev : Option (D → ℤ × D)
  pub release_dev : Option (D → ℤ × D)
  pub do_blktrans_request : Option (Request → D → ℤ × D)

-- `while (nsect--)`: the next block, and whether a sector failed
unfoldable pub each_sector : {D : Type 0} → ℕ → (ℕ → ℕ → D → ℤ × D) → ℕ → ℕ → ℕ → D → Status × ℕ × D
each_sector zero sect blksize block buf d = (Status.ok, block, d)
each_sector (suc nsect) sect blksize block buf d =
    let (ret, d') = sect block buf d in
    let rest = each_sector nsect sect blksize (block + 1) (buf + blksize) d' in
    if is_zero ret then rest else (Status.ioerr, block, d')

-- `rq_for_each_segment`
unfoldable pub each_segment :
    {D : Type 0} → (ℕ → ℕ → D → ℤ × D) → ℕ → ℕ → List Segment → ℕ → D → Status × D
unfolding each_sector
each_segment sect blksize blkshift [] block d = (Status.ok, d)
each_segment sect blksize blkshift (s ∷ segments) block d =
    let (status, block', d') = each_sector (shr s.bv_len blkshift) sect blksize block s.buf d in
    let rest = each_segment sect blksize blkshift segments block' d' in
    elim status [ Status.ok ↦ rest | Status.ioerr ↦ (Status.ioerr, d') ]

-- `if (method && method(...)) return BLK_STS_IOERR; return BLK_STS_OK;`
abbrev pub by_method : {D : Type 0} → Option (D → ℤ × D) → D → Status × D
by_method none d = (Status.ok, d)
by_method (some f) d = let (ret, d') = f d in (if is_zero ret then Status.ok else Status.ioerr, d')

abbrev pub by_discard : {D : Type 0} → BlktransOps D → ℕ → ℕ → D → Status × D
by_discard tr block nsect d = elim (tr.discard) [
  | none ↦ (Status.ok, d)
  | some f ↦ by_method (some (f block nsect)) d
]

-- The first block of a request
abbrev pub first_block : ℕ → Request → ℕ
first_block blkshift req = shr (req.start * 2 ^ 9) blkshift

unfoldable pub do_blktrans_request_fallback :
    {D : Type 0} → BlktransOps D → Request → D → Status × D
unfolding each_segment
do_blktrans_request_fallback tr req d =
    let block = first_block tr.blkshift req in
    elim (req.op) [
      | Op.flush ↦ by_method tr.flush d
      | Op.discard ↦ by_discard tr block req.sectors d
      | Op.write_zeroes ↦ by_discard tr block req.sectors d
      | Op.read ↦
          each_segment (elim (tr.readsect) [ none ↦ λ b buf e. (negsuc 0, e) | some f ↦ f ])
            tr.blksize tr.blkshift req.segments block d
      | Op.write ↦ elim (tr.writesect) [
        | none ↦ (Status.ioerr, d)
        | some f ↦ each_segment f tr.blksize tr.blkshift req.segments block d
      ]
      | Op.other ↦ (Status.ioerr, d)
    ]

-- One turn of `ntd_blktrans_work` for a request
unfoldable pub serve : {D : Type 0} → BlktransOps D → Request → D → Status × D
unfolding do_blktrans_request_fallback
serve tr req d = elim (tr.do_blktrans_request) [
  | none ↦ do_blktrans_request_fallback tr req d
  | some f ↦ let (err, d') = f req d in (if is_zero err then Status.ok else Status.ioerr, d')
]

-- `ntd_next_request`: the first request of the list is taken off.
unfoldable pub ntd_next_request : BlktransDev → Option (Request × BlktransDev)
ntd_next_request dev = elim (dev.rq_list) [
  | [] ↦ none
  | req ∷ rest ↦ some (req, record dev { rq_list = rest })
]

-- `ntd_queue_rq` on a queue that has its device: the request is put last.
unfoldable pub ntd_queue_rq : Request → BlktransDev → Status × BlktransDev
ntd_queue_rq req dev = (Status.ok, record dev { rq_list = dev.rq_list ++ (req ∷ []) })

-- `kref_put`: no count below 0
abbrev pub kref_put : BlktransDev → BlktransDev
kref_put dev = record dev { ref = dev.ref - 1 }

abbrev pub kref_get : BlktransDev → BlktransDev
kref_get dev = record dev { ref = dev.ref + 1 }

-- The end of an open by a result of the transport: a refusal undoes what the open counted.
unfoldable pub finish_open : {D : Type 0} → ℤ × D → BlktransDev → ℤ × Option BlktransDev × D
finish_open (ret, d) dev =
    let failed = record (kref_put dev) { open_count = u32 (dev.open_count + 2 ^ 32 - 1) } in
    if is_zero ret then (ret, some (kref_put dev), d) else (ret, some (kref_put failed), d)

-- A method that is NULL counts as one that succeeds.
abbrev pub call : {D : Type 0} → Option (D → ℤ × D) → D → ℤ × D
call none d = (pos 0, d)
call (some f) d = f d

-- `dev` is none for a disk without its device.
unfoldable pub blktrans_open :
    {D : Type 0} → BlktransOps D → Option BlktransDev → D → ℤ × Option BlktransDev × D
unfolding finish_open
blktrans_open tr none d = (neg enxio, none, d)
blktrans_open tr (some dev) d =
    let opened = record (kref_get dev) { open_count = u32 (dev.open_count + 1) } in
    if not (dev.open_count == 0)
    then (pos 0, some (kref_put opened), d)
    else finish_open (call tr.open_dev d) (kref_get opened)

unfoldable pub blktrans_release :
    {D : Type 0} → BlktransOps D → Option BlktransDev → D → Option BlktransDev × D
blktrans_release tr none d = (none, d)
blktrans_release tr (some dev) d =
    let closed = record (kref_get dev) { open_count = u32 (dev.open_count + 2 ^ 32 - 1) } in
    if not (closed.open_count == 0)
    then (some (kref_put closed), d)
    else (some (kref_put (kref_put closed)), (call tr.release_dev d).1)

-- The loop over `tr->devs`, and what follows it: none is -EBUSY. `limit` is the last minor.
unfoldable pub insert_dev : BlktransDev → ℕ → List BlktransDev → Option (List BlktransDev)
insert_dev new limit [] = if ltb limit new.devnum then none else some (new ∷ [])
insert_dev new limit (d ∷ devs) =
    let rest = insert_dev new limit devs in
    if d.devnum == new.devnum
    then none
    else if ltb new.devnum d.devnum
    then some (new ∷ d ∷ devs)
    else elim rest [ none ↦ none | some l ↦ some (d ∷ l) ]

-- `list_del(&new->list)`
unfoldable pub remove_dev : ℕ → List BlktransDev → List BlktransDev
remove_dev devnum [] = []
remove_dev devnum (d ∷ devs) =
    let rest = remove_dev devnum devs in if d.devnum == devnum then devs else d ∷ rest

-- What the block layer answers when a disk is made.
pub record DiskCalls : Type 0 where
  pub workqueue : Bool
  pub kzalloc : Bool
  pub alloc_tag_set : ℤ
  pub alloc_disk : ℤ
  pub add_disk : ℤ

-- The result of the calls, in their order: 0, or the error of the first that fails.
unfoldable pub disk_result : DiskCalls → ℤ
disk_result calls =
    if not calls.workqueue
    then neg enomem
    else if not calls.kzalloc
    then neg enomem
    else if not (is_zero calls.alloc_tag_set)
    then calls.alloc_tag_set
    else if is_neg calls.alloc_disk
    then calls.alloc_disk
    else calls.add_disk

-- `MINORMASK` is 2 ^ 20 - 1. A device that its disk cannot be made for is taken off the list.
unfoldable pub add_ntd_blktrans_dev :
    {D : Type 0} → BlktransOps D → DiskCalls → BlktransDev → List BlktransDev → ℤ × List BlktransDev
unfolding insert_dev remove_dev disk_result
add_ntd_blktrans_dev tr calls new devs =
    let ready = record new {
      ref = 1;
      rq_list = [];
      readonly = elim (tr.writesect) [ none ↦ 1 | some f ↦ new.readonly ];
    } in
    elim (insert_dev ready (shr (2 ^ 20 - 1) tr.part_bits) devs) [
      | none ↦ (neg ebusy, devs)
      | some l ↦
          if is_zero (disk_result calls)
          then (pos 0, l)
          else (disk_result calls, remove_dev new.devnum l)
    ]
