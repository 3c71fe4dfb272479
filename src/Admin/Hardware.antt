-- ===== src/Admin/Hardware.antt =====
-- `ena_ring_create_hw` and `ena_ring_destroy_hw` (src/ena_datapath.c): the queues of a ring on the
-- device. A ring is read anew after each command, since a command that times out may recover it.
use lib_ena.Prelude.{
  ℕ, ◌+◌, ◌*◌, ◌/◌, ◌%◌, ◌^◌, ◌==◌, ltb, true, false, not, ◌&&◌, ◌||◌, Bool, if◌then◌else◌, Option,
  none, some,
}
use lib_ena.Status.{ok, err, Code, success, einval}
use lib_ena.Ring.{Ring, RingType, is_tx, u32}
use lib_ena.Admin.{Handle, RingBus, Master}
use lib_ena.Admin.Client.{Exec, ring_at, on_ring, or_return, return_if}
use lib_ena.Admin.Queues.{
  outside, SqAnswer, admin_destroy_cq, admin_destroy_sq, admin_create_cq, admin_create_sq,
  admin_create_sq_llq,
}

-- `ENA_ADMIN_SQ_DIRECTION_…`
abbrev pub direction_of : RingType → ℕ
direction_of ty = if is_tx ty then 1 else 2

-- The results of CREATE_CQ go to the ring.
unfoldable pub store_cq : ℕ → ℕ → ℕ → Ring → Ring
store_cq cq_idx db_offset unmask r = record r {
  cq = record r.cq { idx = cq_idx; db_offset = db_offset; unmask_db_offset = unmask };
}

unfoldable pub store_sq : ℕ → ℕ → Ring → Ring
store_sq sq_idx db_offset r = record r { sq = record r.sq { idx = sq_idx; db_offset = db_offset } }

-- The address of a doorbell, where there is one.
unfoldable pub map_cq_db : ℕ → Ring → Ring
map_cq_db bar0 r =
    if r.cq.db_offset == 0 then r else record r { cq = record r.cq { db = bar0 + r.cq.db_offset } }

unfoldable pub map_sq_db : ℕ → Ring → Ring
map_sq_db bar0 r =
    if r.sq.db_offset == 0 then r else record r { sq = record r.sq { db = bar0 + r.sq.db_offset } }

abbrev pub bad_offset : ℕ → ℕ → Bool
bad_offset size off = not (off == 0) && outside size off

-- A block of code that works on a ring; a pointer that is NULL is refused.
unfoldable pub with_ring : Handle → Master → (Ring → Code × Master) → Code × Master
with_ring h m k = elim (ring_at h m) [ none ↦ (err einval, m) | some r ↦ k r ]

-- `llq_info.entry_size ? llq_info.entry_size : 128`
abbrev pub llq_entry_size : Master → ℕ
llq_entry_size m = if m.llq_info.entry_size == 0 then 128 else m.llq_info.entry_size

-- The test for LLQ mode.
unfoldable pub wants_llq : Ring → Master → Bool
wants_llq r m =
    is_tx r.ring_type
    && (m.llq_info.enabled
        && (not (m.bar2_base == 0)
            && (ltb 0 m.bar2_size
                && (m.llq_info.max_llq_num == 0 || ltb r.qid m.llq_info.max_llq_num))))

-- The rings of a device queue that are not inside BAR2.
unfoldable pub bad_llq : Ring → SqAnswer → Master → Bool
bad_llq r a m =
    let area = r.sq.depth * llq_entry_size m in
    a.llq_descs == 0
    || (ltb m.bar2_size (a.llq_descs + area)
        || (not (a.llq_headers == 0) && ltb m.bar2_size (a.llq_headers + area)))

-- The push buffer of LLQ mode, at an offset in BAR2.
unfoldable pub push_mode : ℕ → Master → Ring → Ring
push_mode off m r = record r {
  push = record {
    is_llq = true;
    virt = m.bar2_base + off;
    phys = 0;
    size = u32 (r.sq.depth * llq_entry_size m);
    header_len = m.llq_info.header_len;
    entry_size = u32 (llq_entry_size m);
  };
}

unfoldable pub set_valid : Ring → Ring
set_valid r = record r { hw_valid = true }

-- The ring without its queues.
unfoldable pub unmapped : Ring → Ring
unmapped r = record r {
  hw_valid = false;
  sq = record r.sq { db = 0 };
  cq = record r.cq { db = 0; unmask_db_offset = 0 };
  push = record { is_llq = false; virt = 0; phys = 0; size = 0; header_len = 0; entry_size = 0 };
}

module _ (exec : Exec) (bus : Handle → RingBus) (h : Handle) where
  -- The checks of the offsets of the completion queue, which is destroyed where they fail.
  unfoldable pub hw_check_cq : Master → Code × Master
  hw_check_cq m = with_ring h m λ r.
      let mapped = on_ring h (map_cq_db m.dev.bar0_base) m in
      return_if (bad_offset m.dev.bar0_size r.cq.db_offset) einval
        (admin_destroy_cq exec r.cq.idx m).1
        (return_if (bad_offset m.dev.bar0_size r.cq.unmask_db_offset) einval
          (admin_destroy_cq exec r.cq.idx mapped).1 (success, mapped))

  -- What follows the creation of the submission queue: after a failure the completion queue goes.
  unfoldable pub or_destroy_cq : Code × Master → Code × Master
  or_destroy_cq (ok _, m) = (success, m)
  or_destroy_cq (err e, m) = with_ring h m λ r. (err e, (admin_destroy_cq exec r.cq.idx m).1)

  -- A queue in host memory; where that fails, the completion queue is destroyed.
  unfoldable pub hw_host_sq : Master → Code × Master
  hw_host_sq m = with_ring h m λ r. or_destroy_cq (
      admin_create_sq exec r.sq.depth (bus h).sq_phys (bus h).sq_head_wb_phys r.cq.idx
        (direction_of r.ring_type) (λ idx off. on_ring h (store_sq idx off)) m)

  -- The end of a failure that has to destroy the completion queue last.
  unfoldable pub drop_cq : Master → Code × Master
  drop_cq m = with_ring h m λ r. (err einval, (admin_destroy_cq exec r.cq.idx m).1)

  -- The check of the doorbell, and the end: the ring is valid. `llq` is the offset of the push
  -- buffer in LLQ mode.
  unfoldable pub hw_finish : Option ℕ → Master → Code × Master
  hw_finish llq m = with_ring h m λ r.
      let mapped = on_ring h (map_sq_db m.dev.bar0_base) m in
      let pushed : Master = elim llq [
        | none ↦ mapped
        | some off ↦ on_ring h (push_mode off mapped) mapped
      ] in
      let done : Code × Master = (success, on_ring h set_valid pushed) in
      if bad_offset m.dev.bar0_size r.sq.db_offset
      then drop_cq (admin_destroy_sq exec r.sq.idx m).1
      else done

  -- The host placement, and the end.
  unfoldable pub hw_fallback : Master → Code × Master
  hw_fallback m = or_return (hw_host_sq m) (hw_finish none)

  -- What follows the creation of a queue in the device: host placement where the device refuses it.
  unfoldable pub hw_after_llq : SqAnswer × Master → Code × Master
  hw_after_llq (a, m) = elim a.ret [
    | err _ ↦ hw_fallback m
    | ok _ ↦ with_ring h m λ r.
        if bad_llq r a m
        then hw_fallback (admin_destroy_sq exec r.sq.idx m).1
        else hw_finish (some a.llq_descs) m
  ]

  -- The submission queue: in the device if the mode asks for it, else in host memory.
  unfoldable pub hw_sq : Master → Code × Master
  hw_sq m = with_ring h m λ r.
      let device_queue =
        admin_create_sq_llq exec r.sq.depth r.cq.idx (direction_of r.ring_type)
          (λ idx off. on_ring h (store_sq idx off)) m in
      if wants_llq r m then hw_after_llq device_queue else hw_fallback m

  -- `ena_ring_create_hw`
  unfoldable pub ring_create_hw : ℕ → Master → Code × Master
  ring_create_hw msix_vector m = with_ring h m λ r.
      let vector = if msix_vector == 0 then 0xffff_ffff else msix_vector in
      return_if (m.dev.bar0_base == 0) einval m (
        or_return
          (admin_create_cq exec r.cq.depth (bus h).cq_phys vector (r.cq.elem_size / 4 % 2 ^ 8)
            (λ idx off unmask. on_ring h (store_cq idx off unmask)) m)
          λ m1. or_return (hw_check_cq m1) hw_sq)

  -- `ena_ring_destroy_hw`: the first error of the two commands, both of which are sent.
  unfoldable pub ring_destroy_hw : Master → Code × Master
  ring_destroy_hw m = with_ring h m λ r.
      let (sq_ret, m1) = admin_destroy_sq exec r.sq.idx m in
      with_ring h m1 λ r1.
        let (cq_ret, m2) = admin_destroy_cq exec r1.cq.idx m1 in
        let ret : Code = elim sq_ret [ ok _ ↦ cq_ret | err e ↦ err e ] in
        (ret, on_ring h unmapped m2)
