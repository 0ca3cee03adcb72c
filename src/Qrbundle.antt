-- ===== src/Qrbundle.antt =====
-- internal/qrbundle: the base45 payload of an enrollment bundle. The codec is in Base45, its laws
-- in Inverse (decoding undoes encoding, and the other way round) and the size budget in Capacity.
pub mod Base45
pub mod Payload
pub mod Inverse
pub mod Capacity
