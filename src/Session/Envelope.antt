-- ===== src/Session/Envelope.antt =====
-- types.go: the control messages of the WebSocket protocol.
use bitphase_file_share.Prelude.{Bool, false, List, [], Option, Text, bytes, ℤ, pos, Result}
use bitphase_file_share.Store.Meta.{TransferSummary}

pub record Envelope : Type 0 where
  pub type : Text
  pub pub_key : Text
  pub token : Text
  pub server_ephemeral_pub : Text
  pub nonce : Text
  pub ciphertext : Text
  pub response : Text
  pub is_ok : Bool
  pub error : Text
  pub transfer_id : Text
  pub to : Text
  pub total_chunks : ℤ
  pub shareable : Bool
  pub index : ℤ
  pub received_indices : List ℤ
  pub transfers : List TransferSummary

-- wsEnvelope{}: every field is its zero value.
abbrev pub blank : Envelope
blank = record {
  type = [];
  pub_key = [];
  token = [];
  server_ephemeral_pub = [];
  nonce = [];
  ciphertext = [];
  response = [];
  is_ok = false;
  error = [];
  transfer_id = [];
  to = [];
  total_chunks = pos 0;
  shareable = false;
  index = pos 0;
  received_indices = [];
  transfers = [];
}

-- encoding/json on control messages.
pub record EnvelopeJson : Type 0 where
  pub marshal : Envelope → Result Text
  pub unmarshal : Text → Option Envelope

abbrev pub error_envelope : Text → Envelope
error_envelope message = record blank { type = bytes "error"; error = message }
