-- ===== src/Tests.antt =====
-- Concrete inputs for the properties: a codec that satisfies the laws of IsCodec, and runs of the
-- sender and the receiver with it.
pub mod Codec
pub mod Sender
pub mod SenderRuns
pub mod ReceiverRuns
pub mod Decisions
pub mod DrainRuns
pub mod GroupRuns
pub mod AuditRuns
pub mod ShadowRuns
pub mod FinanceRuns
pub mod ProfileRuns
