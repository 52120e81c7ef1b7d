-- ===== src/Net.antt =====
-- src/net: the handlers of the server, the payment middleware and the polling of peers.
pub mod Keys
pub mod Peer
pub mod Payments
pub mod CheckPayment
pub mod PaymentFlow
