-- ===== src/Llq/Negotiate.antt =====
-- `ena_llq_negotiate` (src/ena_llq.c).
use lib_ena.Prelude.{ℕ, ◌%◌, ◌^◌, ◌==◌, ◌||◌, if◌then◌else◌, true, List, get_or, replicate}
use lib_ena.Status.{Code, success, ok, err}
use lib_ena.Admin.{get_feature, LlqInfo, Master, Command}
use lib_ena.Admin.Client.{Exec}
use lib_ena.Init.{llq, feature_req, no_llq, llq_select_params}

-- The settings that an answer of the device gives; `none_kept` where its layouts do not fit.
unfoldable pub agreed : List ℕ → LlqInfo → LlqInfo
agreed resp none_kept =
    let (code, (entry_size, header_len)) =
      llq_select_params (get_or resp 2 0 % 2 ^ 16) (get_or resp 3 0 % 2 ^ 16) in
    elim code [
      | err _ ↦ none_kept
      | ok _ ↦ record {
        supported = true;
        enabled = true;
        max_llq_num = get_or resp 0 0;
        max_llq_depth = get_or resp 1 0;
        entry_size = entry_size;
        header_len = header_len;
      }
    ]

-- `ena_llq_negotiate`, which always answers 0.
unfoldable pub llq_negotiate : Exec → Master → Code × Master
llq_negotiate exec m =
    let c : Command = record {
      opcode = get_feature;
      req = feature_req llq (replicate 11 0);
      resp_cap = 8;
      max_polls = 100;
    } in
    let off : Master = record m { llq_info = no_llq } in
    let (r, m1) = exec c off in
    let done : Master = elim r.ret [
      | err _ ↦ m1
      | ok _ ↦ record m1 { llq_info = agreed r.resp m1.llq_info }
    ] in
    if m.bar2_base == 0 || m.bar2_size == 0 then (success, off) else (success, done)
