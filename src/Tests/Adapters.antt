-- ===== src/Tests/Adapters.antt =====
-- An adapter with admin queues of four entries and one ring of each direction, a device that answers
-- each command at the first poll, one that is silent, and one that reports a fatal status.
use lib_ena.Prelude.{ℕ, ◌+◌, ◌%◌, ◌/◌, true, false, none, some, List, [], ◌∷◌, set, replicate}
use lib_ena.Status.{success}
use lib_ena.Device.{Adapter, admin_ready}
use lib_ena.Ring.{tx, rx}
use lib_ena.Ring.Lifecycle.{new_ring}
use lib_ena.Init.{no_llq}
use lib_ena.Recovery.{Rss}
use lib_ena.Admin.{
  AcqEntry, AenqEntry, blank_aq, blank_acq, blank_aenq, Master, World, Command, get_feature,
}

abbrev pub port : Adapter
port = record {
  bar0_base = 0x1000;
  bar0_size = 0x1000;
  state = admin_ready;
  version = 0;
  controller_version = 0;
  caps = 0;
}

abbrev pub adapter : Master
adapter = record {
  dev = port;
  bar2_base = 0;
  bar2_size = 0;
  aq = record {
    base = 1;
    phys = 64;
    depth = 4;
    tail = 0;
    phase = 1;
    entries = replicate 4 blank_aq;
  };
  acq = record {
    base = 2;
    phys = 128;
    depth = 4;
    head = 0;
    phase = 1;
    entries = replicate 4 blank_acq;
  };
  aenq = record {
    base = 3;
    phys = 192;
    depth = 4;
    head = 4;
    phase = 1;
    entries = replicate 4 blank_aenq;
  };
  next_command_id = 1;
  recover_active = false;
  aenq_handler = 1;
  reports = record {
    link_up = true;
    aen_keepalives = 0;
    aen_rx_drops = 0;
    aen_tx_drops = 0;
    aenq_enabled_groups = 0;
  };
  attributes = record {
    mac_addr = [];
    max_mtu = 0;
    max_tx_queues = 1;
    max_rx_queues = 1;
    max_tx_ring_size = 4;
    max_rx_ring_size = 4;
    impl_id = 0;
    device_version = 0;
    supported_features = 0;
    attr_caps = 0;
    phys_addr_width = 48;
    virt_addr_width = 48;
    max_header_size = 0;
    max_packet_tx_descs = 0;
    max_packet_rx_descs = 0;
    mtu = 0;
  };
  host_info_base = 0;
  host_info_phys = 0;
  tx_rings = some (new_ring 0 tx 4 4) ∷ [];
  rx_rings = some (new_ring 0 rx 4 4) ∷ [];
  num_tx_rings = 1;
  num_rx_rings = 1;
  irq_vectors = false;
  llq_info = no_llq;
  rss_info = record {
    info = record { ind_table_size = 0; host_ind_table = []; ind_table = [] };
    host_ind_table = 0;
    ind_table = 0;
    hash_key = 0;
    hash_ctrl = 0;
    supported = false;
    enabled = false;
    key_memory = record { key_parts = 0; reserved = 0; key = [] };
    selected_fields = [];
  };
  rx_queue = none;
  heap = record { calls = 9; live = 1 ∷ 2 ∷ 3 ∷ 9 ∷ [] };
  now = 0;
  log = [];
}

-- A device that never writes to the queues.
abbrev pub silent : World
silent = record {
  acq_dma = λ n i mem. mem;
  aenq_dma = λ n mem. mem;
  status = λ n i. 0x20;
  control = λ n. 0;
  ind_table_dma = λ n mem. mem;
  grants = λ n. true;
  phys = λ block. block;
  bus = λ h. record { sq_phys = 64; cq_phys = 128; sq_head_wb_phys = 0 };
  refill_netbuf = none;
}

-- The completion of the command of exchange `n`, as `adapter` counts them.
abbrev pub completion : ℕ → AcqEntry
completion n = record {
  command = n + 1;
  status = 0;
  flags = (1 + n / 4) % 2;
  extended_status = 0;
  sq_head_indx = 0;
  response = 9 ∷ 0x100 ∷ 0x108 ∷ 0x200 ∷ [];
}

-- A device that answers each command before the first poll.
abbrev pub prompt : World
prompt = record silent { acq_dma = λ n i mem. set mem (n % 4) (completion n) }

-- One event of the group `warning` is posted in the first of four slots.
abbrev pub one_warning : List AenqEntry
one_warning = record blank_aenq { group = 2; flags = 1 } ∷ replicate 3 blank_aenq

abbrev pub warning_posted : World
warning_posted = record silent { aenq_dma = λ n mem. one_warning }

abbrev pub query : Command
query = record { opcode = get_feature; req = 0 ∷ []; resp_cap = 14; max_polls = 2 }

abbrev pub no_rss : Rss
no_rss exec n m = (success, m)
