-- ===== src/Bitcoin.antt =====
-- src/bitcoin: the networks, the output scripts and the wallet of addresses that await a payment.
pub mod Network
pub mod Script
pub mod Wallet
pub mod Client
pub mod TxStream
