-- ===== src/Generators/Client.antt =====
-- `L7Client` of generators/l7_client.py. What the sockets do is an argument: the local address, the parts
-- of an answer in the order in which they arrive, and failures to connect. Bytes are numbers.
pub mod Dns
pub mod Http
pub mod Stimuli
