-- ===== src/Generators.antt =====
-- generators/packet_gen.py, l7_client.py, scan_gen.py and load_gen.py: what each generator sends, and the
-- stimulus with which it describes that. Random ports, clocks and sockets are arguments.
pub mod Detection
pub mod Packets
pub mod Floods
pub mod Client
