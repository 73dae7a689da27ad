-- ===== src/Dashboard.antt =====
-- srx-dashboard/dashboard.py: the runs and their output streams, the registry that admits runs, and
-- the validation of requests. Pages, sockets and processes are not modelled.
pub mod Run
pub mod Registry
pub mod Request
pub mod Catalog
pub mod Escape
pub mod Fields
pub mod Command
pub mod History
pub mod Origins
pub mod Handler
pub mod Delivery
pub mod Worker
