-- ===== src/Bootloader/Link.antt =====
-- `run_bootloader_command` and `send_bootloader_packet` of aiocflib/bootloader/bootloader.py. The timeouts and
-- the numbers of attempts are part of the exchange, which is a parameter.
use aiocflib.Prelude.{ℕ, none, some, Bytes}
use aiocflib.Prelude.Exec.{Exec, lift, ◌>>=◌}
use aiocflib.Crtp.Packet.{CrtpPacket, header_of}
use aiocflib.Crtp.Command.{Request, CommandLike, handle_data_argument}
use aiocflib.Crazyflie.Names.{Text}

-- `CRTPDevice.run_command`, the driver's `send_packet`, and reading a file.
pub record Link (S : Type 0) : Type 0 where
  pub run_command : Request → Exec S Bytes
  pub send_packet : CrtpPacket → Exec S (Unit {0})
  pub read_file : Text → Exec S Bytes

abbrev pub link_control_port : ℕ
link_control_port = 15

abbrev pub bootloader_channel : ℕ
bootloader_channel = 3

unfoldable pub bootloader_request : CommandLike → Bytes → Request
bootloader_request command payload = record {
  port = link_control_port;
  channel = bootloader_channel;
  command = some command;
  payload = payload;
}

-- `CRTPDevice.send_packet` builds the packet.
unfoldable pub bootloader_packet : Bytes → CrtpPacket
unfolding header_of
bootloader_packet bs = record {
  header = (header_of none (some link_control_port) bootloader_channel).header;
  body = bs;
}

module _ {S : Type 0} (link : Link S) where
  unfoldable pub run_bootloader_command : CommandLike → Bytes → Exec S Bytes
  unfolding bootloader_request
  run_bootloader_command command payload = link.run_command (bootloader_request command payload)

  unfoldable pub send_bootloader_packet : CommandLike → Exec S (Unit {0})
  unfolding bootloader_packet handle_data_argument
  send_bootloader_packet body = do
    bs ← lift (handle_data_argument (some body))
    link.send_packet (bootloader_packet bs)
