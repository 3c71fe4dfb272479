-- ===== src/Admin/Setup.antt =====
-- `ena_admin_init` and `ena_admin_fini` (src/ena_admin.c).
use lib_ena.Prelude.{
  ℕ, ◌+◌, ◌*◌, ◌/◌, ◌%◌, ◌^◌, ◌==◌, not, ◌&&◌, ◌||◌, if◌then◌else◌, List, [], ◌∷◌, replicate,
}
use lib_ena.Status.{err, Code, success, einval, enomem}
use lib_ena.Device.{admin_ready, stopped}
use lib_ena.Ring.Depth.{is_power_of_two}
use lib_ena.Ring.Lifecycle.{Heap, grab, free_block, free_if}
use lib_ena.Admin.{
  blank_aq, blank_acq, blank_aenq, AdminSq, AdminCq, EventQueue, Access, write_reg, Master, World,
}
use lib_ena.Admin.Exec.{acq_tail}

-- The event queue's head doorbell, `ENA_REGS_AENQ_HEAD_DB_OFF`.
abbrev pub aenq_head_db : ℕ
aenq_head_db = 0x40

-- A queue that has been given back.
abbrev pub no_sq : AdminSq
no_sq = record { base = 0; phys = 0; depth = 0; tail = 0; phase = 0; entries = [] }

abbrev pub no_cq : AdminCq
no_cq = record { base = 0; phys = 0; depth = 0; head = 0; phase = 0; entries = [] }

abbrev pub no_events : EventQueue
no_events = record { base = 0; phys = 0; depth = 0; head = 0; phase = 0; entries = [] }

-- `ena_admin_fini`
unfoldable pub admin_fini : Master → Master
admin_fini m =
    let h = free_if m.aenq.base (free_if m.acq.base (free_if m.aq.base m.heap)) in
    record m {
      dev = record m.dev { state = stopped };
      aq = no_sq;
      acq = no_cq;
      aenq = no_events;
      next_command_id = 0;
      aenq_handler = 0;
      host_info_base = 0;
      host_info_phys = 0;
      heap = free_if m.host_info_base h;
    }

-- A register of the capabilities: the entry size of 64 bytes in the upper half, and the depth.
abbrev pub caps_word : ℕ → ℕ
caps_word depth = 64 * 2 ^ 16 + depth % 2 ^ 16

-- The register writes that publish the queues, in order.
unfoldable pub publish : ℕ → ℕ → ℕ → ℕ → ℕ → ℕ → List Access
publish aq_phys acq_phys aenq_phys aq_depth acq_depth aenq_depth =
    write_reg 0x10 (aq_phys % 2 ^ 32)
    ∷ write_reg 0x14 (aq_phys / 2 ^ 32 % 2 ^ 16)
    ∷ write_reg 0x18 (caps_word aq_depth)
    ∷ write_reg 0x20 (acq_phys % 2 ^ 32)
    ∷ write_reg 0x24 (acq_phys / 2 ^ 32 % 2 ^ 32)
    ∷ write_reg 0x28 (caps_word acq_depth)
    ∷ write_reg acq_tail 0
    ∷ write_reg 0x38 (aenq_phys % 2 ^ 32)
    ∷ write_reg 0x3c (aenq_phys / 2 ^ 32 % 2 ^ 32)
    ∷ write_reg 0x34 (caps_word aenq_depth)
    ∷ write_reg aenq_head_db aenq_depth
    ∷ []

-- The latest first, as the log has it.
unfoldable pub logged : List Access → List Access → List Access
logged [] log = log
logged (a ∷ rest) log = logged rest (a ∷ log)

-- The adapter with three new queues in the blocks `a`, `q` and `e`.
unfoldable pub installed : World → ℕ → ℕ → ℕ → ℕ → ℕ → ℕ → Heap → Master → Master
installed w aq_depth acq_depth aenq_depth a q e h m = record m {
  dev = record m.dev { state = admin_ready };
  aq = record {
    base = a;
    phys = w.phys a;
    depth = aq_depth;
    tail = 0;
    phase = 1;
    entries = replicate aq_depth blank_aq;
  };
  acq = record {
    base = q;
    phys = w.phys q;
    depth = acq_depth;
    head = 0;
    phase = 1;
    entries = replicate acq_depth blank_acq;
  };
  aenq = record {
    base = e;
    phys = w.phys e;
    depth = aenq_depth;
    head = aenq_depth;
    phase = 1;
    entries = replicate aenq_depth blank_aenq;
  };
  next_command_id = 1;
  aenq_handler = 0;
  heap = h;
  log = logged (publish (w.phys a) (w.phys q) (w.phys e) aq_depth acq_depth aenq_depth) m.log;
}

-- The three allocations, each failure of which gives the earlier blocks back.
unfoldable pub admin_alloc : World → ℕ → ℕ → ℕ → Master → Code × Master
admin_alloc w aq_depth acq_depth aenq_depth m =
    let (a, h1) = grab w.grants m.heap in
    let (q, h2) = grab w.grants h1 in
    let (e, h3) = grab w.grants h2 in
    if a == 0
    then (err enomem, record m { heap = h1 })
    else if q == 0
    then (err enomem, record m { heap = free_block h2 a })
    else if e == 0
    then (err enomem, record m { heap = free_block (free_block h3 a) q })
    else (success, installed w aq_depth acq_depth aenq_depth a q e h3 m)

-- `ena_admin_init`
unfoldable pub admin_init : World → ℕ → ℕ → ℕ → Master → Code × Master
admin_init w aq_depth acq_depth aenq_depth m =
    let held = not (m.aq.base == 0) || (not (m.acq.base == 0) || not (m.aenq.base == 0)) in
    let m' = if held then admin_fini m else m in
    if m.dev.bar0_base == 0
    then (err einval, m)
    else if not
        (is_power_of_two aq_depth && (is_power_of_two acq_depth && is_power_of_two aenq_depth))
    then (err einval, m')
    else admin_alloc w aq_depth acq_depth aenq_depth m'
