-- ===== src/Discovery/Document.antt =====
-- internal/discovery/discovery.go: New, with the members of the document that name what the relay
-- understands. Notes and descriptions are left out. The examples are in Discovery and Vector.
use interchange.Base.{ℕ, Option, none, List, [], ◌∷◌, Text, codes}
use interchange.Discovery.{replay_window_seconds, body_max_bytes, request_ttl_hours}

-- An endpoint is a method, a space and a path, with a colon before what stands for an id; null is none.
pub record Endpoints : Type 0 where
  pub discovery : Text
  pub health : Text
  pub put : Text
  pub pull : Text
  pub ack : Text
  pub pair_request : Text
  pub pair_status : Text
  pub pair_approve : Option Text
  pub pair_deny : Option Text

pub record Auth : Type 0 where
  pub scheme : Text
  pub header : Text

pub record Signing : Type 0 where
  pub algorithms : List Text
  pub default_algorithm : Text
  pub header : Text

pub record Encryption : Type 0 where
  pub key_exchange_values : List Text
  pub kdf_info : Text
  pub symmetric : Text

pub record ContentHandling : Type 0 where
  pub mime_allowlist : List Text
  pub max_body_bytes : ℕ

pub record Limits : Type 0 where
  pub replay_window_seconds : ℕ
  pub body_max_bytes : ℕ

pub record Document : Type 0 where
  pub version : Text
  pub protocol : Text
  pub interchange_id : Text
  pub trust_model : Text
  pub endpoints : Endpoints
  pub auth : Auth
  pub signing : Signing
  pub encryption : Encryption
  pub envelope_version : Text
  pub message_kinds : List Text
  pub content_handling : ContentHandling
  pub request_ttl_hours : ℕ
  pub limits : Limits

abbrev pub endpoints : Endpoints
endpoints = record {
  discovery = codes "GET /.well-known/nexus-interchange";
  health = codes "GET /health";
  put = codes "PUT /mailbox/:pathId";
  pull = codes "GET /mailbox/:pathId?since=<msg_id>";
  ack = codes "POST /mailbox/:pathId/ack";
  pair_request = codes "POST /pair/request";
  pair_status = codes "GET /pair/requests/:id";
  pair_approve = none;
  pair_deny = none;
}

abbrev pub signing : Signing
signing = record {
  algorithms = codes "ed25519" ∷ [];
  default_algorithm = codes "ed25519";
  header = codes "X-Nexus-Signature";
}

abbrev pub encryption : Encryption
encryption = record {
  key_exchange_values = codes "P-256" ∷ codes "X25519" ∷ [];
  kdf_info = codes "nexus-casket-channel-v1";
  symmetric = codes "AES-256-GCM";
}

-- New
unfoldable pub new_document : Text → Document
new_document interchange_id = record {
  version = codes "1";
  protocol = codes "nexus-frame-relay/1";
  interchange_id = interchange_id;
  trust_model = codes "operator_approval";
  endpoints = endpoints;
  auth = record { scheme = codes "Ed25519"; header = codes "X-Nexus-Signature" };
  signing = signing;
  encryption = encryption;
  envelope_version = codes "1";
  message_kinds =
      codes "proposal"
      ∷ codes "question"
      ∷ codes "reply"
      ∷ codes "accept"
      ∷ codes "reject"
      ∷ codes "announce"
      ∷ [];
  content_handling = record {
    mime_allowlist = codes "text/markdown" ∷ codes "text/plain" ∷ codes "application/json" ∷ [];
    max_body_bytes = 1048576;
  };
  request_ttl_hours = request_ttl_hours;
  limits = record {
    replay_window_seconds = replay_window_seconds;
    body_max_bytes = body_max_bytes;
  };
}
