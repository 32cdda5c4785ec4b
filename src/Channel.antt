-- ===== src/Channel.antt =====
-- KuksaChannel.hpp: what the server keeps about one client connection. The map of gRPC streams
-- stands with the gRPC service.
use kuksa_val.Prelude.{ℕ, String, Bool, true, false, ◌==◌}
use kuksa_val.Json.{Json}

pub data ChannelType : Type 0 where
  websocket_plain websocket_ssl http_plain http_ssl grpc : ChannelType

pub record KuksaChannel : Type 0 where
  pub connection_id : ℕ
  pub authorized : Bool
  pub modify_tree : Bool
  pub auth_token : String
  pub permissions : Json
  pub type_of_connection : ChannelType

abbrev pub is_grpc : ChannelType → Bool
is_grpc grpc = true
is_grpc _ = false

-- operator==
unfoldable pub same_channel : KuksaChannel → KuksaChannel → Bool
same_channel lh rh = lh.connection_id == rh.connection_id
