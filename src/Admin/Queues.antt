-- ===== src/Admin/Queues.antt =====
-- The four commands on IO queues: `ena_admin_create_cq` and its kin (src/ena_datapath.c). The
-- pointers that a command writes its results to are a function that stores them.
use lib_ena.Prelude.{
  ℕ, ◌+◌, ◌*◌, ◌/◌, ◌%◌, ◌^◌, bit_and, ◌==◌, ltb, not, ◌&&◌, ◌||◌, Bool, if◌then◌else◌, List, [],
  ◌∷◌, get_or,
}
use lib_ena.Status.{ok, err, Code, success, einval}
use lib_ena.Admin.{create_cq, destroy_cq, create_sq, destroy_sq, Master, Command, Reply}
use lib_ena.Admin.Client.{Exec, answered, return_if}

-- `ENA_DATAPATH_MAX_POLLS`
abbrev pub datapath_max_polls : ℕ
datapath_max_polls = 5000

-- The two words of a `struct ena_common_mem_addr`.
abbrev pub addr_low : ℕ → ℕ
addr_low phys = phys % 2 ^ 32

abbrev pub addr_high : ℕ → ℕ
addr_high phys = phys / 2 ^ 32 % 2 ^ 16

-- The two halves of a word.
abbrev pub low16 : ℕ → ℕ
low16 word = word % 2 ^ 16

-- A doorbell offset that is not inside a BAR of `size` bytes, or not aligned.
abbrev pub outside : ℕ → ℕ → Bool
outside size off = ltb size (off + 4) || not (bit_and off 3 == 0)

-- A word of the response, where it is written out.
abbrev pub word_of : Reply → ℕ → ℕ
word_of r i = elim r.ret [ ok _ ↦ get_or r.resp i 0 | err _ ↦ 0 ]

-- The results of CREATE_SQ that are not stored in a ring.
pub record SqAnswer : Type 0 where
  pub ret : Code
  pub llq_descs : ℕ
  pub llq_headers : ℕ

module _ (exec : Exec) where
  -- `ena_admin_destroy_cq`
  unfoldable pub admin_destroy_cq : ℕ → Master → Code × Master
  admin_destroy_cq cq_idx m =
      let c : Command = record {
        opcode = destroy_cq;
        req = low16 cq_idx ∷ [];
        resp_cap = 0;
        max_polls = datapath_max_polls;
      } in
      let (r, m') = exec c m in (r.ret, m')

  -- `ena_admin_destroy_sq`
  unfoldable pub admin_destroy_sq : ℕ → Master → Code × Master
  admin_destroy_sq sq_idx m =
      let c : Command = record {
        opcode = destroy_sq;
        req = low16 sq_idx ∷ [];
        resp_cap = 0;
        max_polls = datapath_max_polls;
      } in
      let (r, m') = exec c m in (r.ret, m')

  -- The request of CREATE_CQ: interrupts enabled in bit 5 of the first byte, the entry size in the
  -- second, the depth in the upper half; then the vector and the address.
  abbrev pub create_cq_req : ℕ → ℕ → ℕ → ℕ → List ℕ
  create_cq_req depth phys vector entry_words =
      let size = if entry_words == 0 then 4 else entry_words in
      (0x20 + size * 2 ^ 8 + depth * 2 ^ 16) ∷ vector ∷ addr_low phys ∷ addr_high phys ∷ []

  -- `ena_admin_create_cq`
  unfoldable pub admin_create_cq :
      ℕ → ℕ → ℕ → ℕ → (ℕ → ℕ → ℕ → Master → Master) → Master → Code × Master
  admin_create_cq depth phys vector entry_words store m =
      let c : Command = record {
        opcode = create_cq;
        req = create_cq_req depth phys vector entry_words;
        resp_cap = 4;
        max_polls = datapath_max_polls;
      } in
      answered (exec c m) λ resp m1.
        let cq_idx = low16 (get_or resp 0 0) in
        let db_offset = get_or resp 2 0 in
        let m2 = store cq_idx db_offset (get_or resp 3 0) m1 in
        let rejected =
          not (m2.dev.bar0_size == 0)
          && (not (db_offset == 0) && outside m2.dev.bar0_size db_offset) in
        return_if rejected einval (admin_destroy_cq cq_idx m2).1 (success, m2)

  -- The request of CREATE_SQ: the direction in the upper three bits of the first byte, the placement
  -- in the third, and the mark of contiguous memory in the fourth; then the completion queue and the
  -- depth, and for a queue in host memory its addresses.
  abbrev pub create_sq_req : ℕ → ℕ → ℕ → ℕ → ℕ → ℕ → List ℕ
  create_sq_req placement depth phys head_wb_phys cq_idx direction =
      let host = placement == 1 in
      (bit_and direction 7 * 2 ^ 5 + placement * 2 ^ 16 + 2 ^ 24)
      ∷ (cq_idx + depth * 2 ^ 16)
      ∷ (if host then addr_low phys else 0)
      ∷ (if host then addr_high phys else 0)
      ∷ (if host then addr_low head_wb_phys else 0)
      ∷ (if host then addr_high head_wb_phys else 0)
      ∷ 0
      ∷ 0
      ∷ []

  -- `ena_admin_create_sq_common`. The id and the doorbell are stored, the offsets of the two rings in
  -- the device are returned; they stay 0 where the command fails.
  unfoldable pub admin_create_sq_common :
      ℕ → ℕ → ℕ → ℕ → ℕ → ℕ → (ℕ → ℕ → Master → Master) → Master → SqAnswer × Master
  admin_create_sq_common placement depth phys head_wb_phys cq_idx direction store m =
      let c : Command = record {
        opcode = create_sq;
        req = create_sq_req placement depth phys head_wb_phys cq_idx direction;
        resp_cap = 4;
        max_polls = datapath_max_polls;
      } in
      let r = (exec c m).0 in
      let (ret, m') = answered (exec c m) λ resp m1.
        let sq_idx = low16 (get_or resp 0 0) in
        let db_offset = get_or resp 1 0 in
        let m2 = store sq_idx db_offset m1 in
        let rejected =
          not (m2.dev.bar0_size == 0)
          && (not (db_offset == 0) && outside m2.dev.bar0_size db_offset) in
        return_if rejected einval (admin_destroy_sq sq_idx m2).1 (success, m2) in
      (record { ret = ret; llq_descs = word_of r 2; llq_headers = word_of r 3 }, m')

  -- `ena_admin_create_sq`: a queue in host memory.
  unfoldable pub admin_create_sq :
      ℕ → ℕ → ℕ → ℕ → ℕ → (ℕ → ℕ → Master → Master) → Master → Code × Master
  admin_create_sq depth phys head_wb_phys cq_idx direction store m =
      let (a, m') = admin_create_sq_common 1 depth phys head_wb_phys cq_idx direction store m in
      (a.ret, m')

  -- `ena_admin_create_sq_llq`: a queue in the device.
  unfoldable pub admin_create_sq_llq :
      ℕ → ℕ → ℕ → (ℕ → ℕ → Master → Master) → Master → SqAnswer × Master
  admin_create_sq_llq depth cq_idx direction store m =
      admin_create_sq_common 3 depth 0 0 cq_idx direction store m
