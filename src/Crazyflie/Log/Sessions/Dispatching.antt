-- ===== src/Crazyflie/Log/Sessions/Dispatching.antt =====
-- Which entry of a session a data packet is decoded for.
use aiocflib.Prelude.{◌≡◌, some, ok, bind, Bytes}
use aiocflib.Crtp.Packet.{CrtpPacket}
use aiocflib.Crazyflie.Client.{Crazyflie}
use aiocflib.Crazyflie.Log.{message_from_bytes}
use aiocflib.Crazyflie.Log.Periods.{Rates}
use aiocflib.Crazyflie.Log.Blocks.{Log}
use aiocflib.Crazyflie.Log.Sessions.{Entry, decode_packet}
use aiocflib.Crazyflie.Log.Sessions.Entering.{Mapping}

module _ {S F : Type 0} (cf : Crazyflie S F) (rates : Rates F) where
  open cf use {floats}

  -- The packet is decoded with the struct of the entry's block, for the entry's handler.
  abbrev pub Decodes : Mapping → Log S → CrtpPacket → Bytes → Entry → Type 0
  Decodes m l q bs e =
      decode_packet cf rates m q l
      ≡ bind (message_from_bytes floats (l.blocks e.block).struct e.block e.handler bs)
          (λ msg. ok (some msg))
