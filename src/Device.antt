-- ===== src/Device.antt =====
-- The device registers: src/ena_com.c. A register is read through a function of the read's number,
-- which stands for what the device answers; the delays and the messages are left out.
use lib_ena.Prelude.{
  ℕ, zero, suc, ◌+◌, ◌-◌, ◌%◌, ◌^◌, bit_and, bit_or, ◌==◌, ltb, Bool, true, false, not, ◌||◌, ◌&&◌,
  if◌then◌else◌, List, [], ◌∷◌,
}
use lib_ena.Status.{Result, ok, err, Code, success, einval, ebusy, eio, etimedout}
pub mod Reset

-- `enum ena_state`
pub data State : Type 0 where
  uninitialized pci_probed admin_ready configured running stopped error : State

-- The fields of `struct ena_adapter` that this file works on; 0 for a NULL address.
pub record Adapter : Type 0 where
  pub bar0_base : ℕ
  pub bar0_size : ℕ
  pub state : State
  pub version : ℕ
  pub controller_version : ℕ
  pub caps : ℕ

-- A status word: `ENA_DEV_STS_…_MASK`.
abbrev pub is_ready : ℕ → Bool
is_ready status = not (bit_and status 0x01 == 0)

abbrev pub in_progress : ℕ → Bool
in_progress status = not (bit_and status 0x08 == 0)

abbrev pub finished : ℕ → Bool
finished status = not (bit_and status 0x10 == 0)

abbrev pub fatal : ℕ → Bool
fatal status = not (bit_and status 0x20 == 0)

-- `ena_device_check_ready`, the status register holding `status`.
unfoldable pub check_ready : ℕ → Adapter → Code
check_ready status a =
    if a.bar0_base == 0 then err einval else if not (is_ready status) then err ebusy else success

-- `ena_device_reset`, the control register holding `ctl`: the code, and the word written, if any.
unfoldable pub device_reset : ℕ → Adapter → Code × List ℕ
device_reset ctl a =
    if a.bar0_base == 0
    then (err einval, [])
    else (success, bit_or (bit_and ctl 0x0fff_ffff) 0x01 ∷ [])

-- The loop of `ena_device_wait_reset_complete`: `n` reads are left, the next one is read `i`.
unfoldable pub reset_polls : (ℕ → ℕ) → ℕ → ℕ → Adapter → Code × Adapter
reset_polls status zero i a = (err etimedout, a)
reset_polls status (suc n) i a =
    let rest = reset_polls status n (i + 1) a in
    if fatal (status i)
    then (err eio, record a { state = error })
    else if finished (status i) && not (in_progress (status i))
    then (success, a)
    else rest

-- `ena_device_wait_reset_complete`
unfoldable pub wait_reset_complete : (ℕ → ℕ) → ℕ → Adapter → Code × Adapter
wait_reset_complete status max_polls a =
    if a.bar0_base == 0
    then (err einval, a)
    else reset_polls status (if max_polls == 0 then 1 else max_polls) 0 a

-- `ena_device_init_scaffold`, `read` being what a register holds by its offset. The fields that are
-- not modelled are zeroed.
unfoldable pub init_scaffold : (ℕ → ℕ) → ℕ → ℕ → Adapter → Code × Adapter
init_scaffold read bar0_base bar0_size a =
    if bar0_base == 0 || ltb bar0_size 0x104 then (err einval, a) else (
      success,
      record {
        bar0_base = bar0_base;
        bar0_size = bar0_size;
        state = pci_probed;
        version = read 0x00;
        controller_version = read 0x04;
        caps = read 0x08;
      },
    )
