-- ===== src/Minecraft.antt =====
-- tests/fake-minecraft.py: the stand-in for a Minecraft server, which answers the status ping. Bytes are numbers.
pub mod Varint
pub mod Packets
pub mod Server
