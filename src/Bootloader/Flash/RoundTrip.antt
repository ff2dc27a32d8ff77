-- ===== src/Bootloader/Flash/RoundTrip.antt =====
-- What `write_flash` has written, `read_flash` reads back.
use aiocflib.Bootloader.Link.{Link}
