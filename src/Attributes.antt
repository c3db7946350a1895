-- ===== src/Attributes.antt =====
-- api/v1/attributes.py: the validators and converters of a request's attributes.
pub mod Message
pub mod Convert
pub mod Scalar
pub mod Network
pub mod Specs
pub mod Dicts
pub mod Accepts
pub mod Words
pub mod Pairs
pub mod Collected
pub mod FixedIps
pub mod DictKeys
