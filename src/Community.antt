-- ===== src/Community.antt =====
-- api/community: the bodies of the output stream, types.go, and their generated codec, cbor_gen.go.
-- The receiver of a MarshalCBOR is not nil at any call of the program. An error of a marshaller is
-- its text without the name of the field.
pub mod Labels
pub mod Service
pub mod Info
pub mod LabelsRoundTrip
pub mod ServiceRoundTrip
pub mod InfoRoundTrip
mod Tests
