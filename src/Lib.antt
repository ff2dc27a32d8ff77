-- ===== src/Lib.antt =====
-- aiocflib talks to Crazyflie drones over CRTP, a protocol of small packets. The development follows the
-- package src/aiocflib of the repository; a path below is relative to it.
--
-- Parts and files:
--   Utils/Chunks      utils/chunks.py: the split of a transfer into requests of limited size
--   Utils/Checksum    utils/checksum.py: the checksum and the sentinel that replaces zeros
--   Utils/Toc         utils/toc.py: the caches of tables of contents. Format has the files, Namespaces the
--                     cache in memory and the wrapper, Fetching the fetch by way of a cache
--   Utils/Addressing  utils/addressing.py: data rates and addresses; Uris has parse_radio_uri, Spaces the address
--                     spaces, Numerals and Digits the numbers in texts
--   Utils/Registry    utils/registry.py: the registry of named values
--   Utils/Statistics  utils/statistics.py: the mean of a sliding window
--   Crtp/Port         crtp/crtpstack.py: CRTPPort
--   Crtp/Packet       crtp/crtpstack.py: CRTPPacket; Fields has the header byte, RoundTrip the bytes on the
--                     wire
--   Crtp/Dispatcher   crtp/crtpstack.py: CRTPDispatcher; Tables says which handlers a packet reaches,
--                     Disposal what disposing changes
--   Crtp/Command      crtp/device.py: CRTPDevice.run_command; Matching says what it returns, Answered when
--   Crtp/Strategies   crtp/strategies.py: Polling and Resending have their answers after any history
--   Crtp/SafeLink     crtp/drivers/radio.py: _SafeLinkState and its negotiation; Counters has its bits
--   Crazyflie/Memory  crazyflie/mem.py: Device is the interface to the drone's memories, Transfers reading and
--                     writing, Checksums the write with a checksum, Elements the list of memories
--   Crazyflie/Param   crazyflie/param.py: types and specifications; Handler has the state and the replies,
--                     Methods the methods of Parameters, and Specs and Values the bytes
--   Crazyflie/Log     crazyflie/log.py: types, variables and messages; Blocks and Commands have the state and the
--                     methods of Log and LogBlock, Life what holds of the blocks after any calls, Sessions
--                     the class LogSession
--   Crazyflie/Values  the numbers of parameters and log variables as bytes, for crazyflie/param.py and
--                     crazyflie/log.py; Crazyflie/Names has their names, Crazyflie/Client what both hold
--                     of the Crazyflie
--   Bootloader        bootloader/target.py, bootloader/types.py and bootloader/bootloader.py: Flash has reading
--                     and writing the flash memory, Targets the class Bootloader, Link the exchange
--   Drivers           drivers/crazyradio.py: the configuration of a radio and its URI
--   Tests             runs at concrete inputs
--   Prelude           lists, bytes, little-endian integers, results and the state monad that the parts share
--
-- How they fit: a subsystem such as the memory sends requests by run_command, which sends a packet and waits
-- for the dispatcher to hand it a matching one; the driver encodes packets with the bits of the safe link and
-- asks the strategies when to poll and to send again.
--
-- Modelling: a method that runs commands is a function from the state of the device to a result and the
-- state after it, so that what was done before an exception stays done. Python's exceptions are the
-- constructors of Error. A bytes object is a list of numbers below 256; struct.pack raises for a value that
-- does not fit. Integers are natural numbers; where the source allows negative ones the file says so. Times
-- are natural numbers of milliseconds. What the drone and the radio answer is a parameter, with documented
-- answers as the laws of Crazyflie/Memory/Device and Bootloader/Flash/Device. Floats are packed and computed
-- with by parameters.
-- Concurrency is the sequence of calls and of packets that arrive.
--
-- Bounds: the loop of chunkify is bounded by the length of the transfer, which suffices since a round takes a
-- byte at least; the attempts of run_command and the ten packets of the safe link negotiation are those of
-- the source. The reader of a cached file is bounded by the length of the file, and read_items_enough of
-- Utils/Toc/Format says that more fuel changes nothing. The loop of
-- read_flash has the number of bytes to read as fuel, which suffices since a round that goes on reads 25
-- bytes at least. The digits of a number are
-- found with the number as fuel, which suffices since every round divides it by ten. No other function needs
-- fuel.
--
-- Not modelled: task groups, threads, input and output on USB and sockets, the graphical and printed forms,
-- and the remaining subsystems of the drone.
mod Prelude
pub mod Utils
pub mod Crtp
pub mod Crazyflie
pub mod Bootloader
pub mod Drivers
mod Tests
