-- ===== src/Worker/Control.antt =====
-- worker/control.hpp and worker/control/control.cpp: the control channel's messages.
pub mod Types
pub mod Codec
pub mod RoundTrip
pub mod Refusals
