-- ===== src/Bootloader/Targets.antt =====
-- The class `Bootloader` of aiocflib/bootloader/bootloader.py: its targets, and how it reboots. Scanning for
-- bootloaders is left out, and so are the pauses after a reboot.
use aiocflib.Prelude.{
  ℕ, Bool, true, false, List, [], ◌∷◌, Option, none, some, ok, err, not_found_error, ◌==◌,
  if◌then◌else◌, assertion_error,
}
use aiocflib.Prelude.Exec.{Exec, pure, raise, lift, ◌>>=◌, ◌>>◌}
use aiocflib.Crtp.Command.{parts, byte}
use aiocflib.Bootloader.{
  BootloaderTargetType, nrf51, stm32, target_id, TargetLike, from_string, is_cf2, BootloaderTarget,
  from_bytes,
}
use aiocflib.Bootloader.Link.{Link, run_bootloader_command, send_bootloader_packet}

-- `targets` is `_targets`, beside the state of the device.
pub record Bootloader (S : Type 0) : Type 0 where
  pub device : S
  pub targets : Option (List BootloaderTarget)

abbrev pub get_target_info_command : ℕ
get_target_info_command = 0x10

abbrev pub reset_command : ℕ
reset_command = 0xF0

abbrev pub reset_init_command : ℕ
reset_init_command = 0xFF

unfoldable pub first_with_id :
    BootloaderTargetType → List BootloaderTarget → Option BootloaderTarget
unfolding target_id
first_with_id type [] = none
first_with_id type (t ∷ ts) =
    let rest = first_with_id type ts in if target_id t.id == target_id type then some t else rest

module _ {S : Type 0} (link : Link S) where
  unfoldable pub get_target_info : BootloaderTargetType → Exec S BootloaderTarget
  unfolding run_bootloader_command from_bytes target_id
  get_target_info type = do
    response ←
        run_bootloader_command link
          (parts (byte (target_id type) ∷ byte get_target_info_command ∷ [])) []
    lift (from_bytes type response)

  unfoldable pub load_targets : Exec S (List BootloaderTarget)
  unfolding get_target_info is_cf2
  load_targets = do
    first ← get_target_info stm32
    if is_cf2 first.protocol_version
        then (do second ← get_target_info nrf51; pure (first ∷ second ∷ []))
        else pure (first ∷ [])

  unfoldable pub on_device : {A : Type 0} → Exec S A → Exec (Bootloader S) A
  on_device m b = let (r, d) = m b.device in (r, record b { device = d })

  unfoldable pub validate : Exec (Bootloader S) (Unit {0})
  unfolding on_device load_targets
  validate b = elim b.targets [
    | some ts ↦ (ok tt, b)
    | none ↦ (on_device load_targets >>= λ ts c. (ok tt, record c { targets = some ts })) b
  ]

  -- The assertion after `validate` never fails.
  unfoldable pub get_targets : Exec (Bootloader S) (List BootloaderTarget)
  unfolding validate
  get_targets = do
    validate
    λ b. (elim b.targets [ some ts ↦ ok ts | none ↦ err assertion_error ], b)

  unfoldable pub find_target : TargetLike → Exec (Bootloader S) BootloaderTarget
  unfolding get_targets first_with_id from_string
  find_target like = do
    type ← lift (from_string like)
    ts ← get_targets
    elim (first_with_id type ts) [ some t ↦ pure t | none ↦ raise not_found_error ]

  unfoldable pub reboot_command : Bool → Exec S (Unit {0})
  unfolding run_bootloader_command send_bootloader_packet target_id
  reboot_command to_firmware = do
    run_bootloader_command link (parts (byte (target_id nrf51) ∷ byte reset_init_command ∷ [])) []
    send_bootloader_packet link (
        parts
          (byte (target_id nrf51) ∷ byte reset_command ∷ byte (if to_firmware then 1 else 0) ∷ []))

  -- `reboot` ignores its argument.
  unfoldable pub reboot : Bool → Exec S (Unit {0})
  unfolding reboot_command
  reboot to_firmware = reboot_command false

  unfoldable pub reboot_to_firmware : Exec S (Unit {0})
  unfolding reboot_command
  reboot_to_firmware = reboot_command true
