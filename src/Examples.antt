-- ===== src/Examples.antt =====
-- The theorems of the development at concrete inputs: their hypotheses can hold.
mod Codec
mod Numbers
mod Invoices
mod Payments
mod Apps
mod Mutations
mod Wires
mod Streams
mod Wallets
mod Remotes
