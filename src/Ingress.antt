-- ===== src/Ingress.antt =====
-- Quotes of paid ingress sessions (src/switchboard-core/src/ingress-quote.ts and quote-binding.ts).
pub mod BigInt
pub mod Quote
pub mod Accepts
pub mod Binding
pub mod Matches
pub mod Bound
pub mod Payment
pub mod BindingTests
pub mod Tests
