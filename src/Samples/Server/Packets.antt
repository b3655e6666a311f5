-- ===== src/Samples/Server/Packets.antt =====
-- samples/CppServer/packets.hpp: the packets of the server and their formatters. Integers are bit
-- patterns, as everywhere.
pub mod Laws
use memory_pack_cpp.Base.{ℕ, List, [], ◌∷◌}
use memory_pack_cpp.Format.{Formatter}
use memory_pack_cpp.Format.Primitives.{number_formatter, string_formatter}
use memory_pack_cpp.Format.Collections.{vector_formatter}
use memory_pack_cpp.Format.Vectors.{number_vector_formatter}
use memory_pack_cpp.Format.Objects.{Member, member, object_formatter}
use memory_pack_cpp.Dotnet.Vectors.{floats_formatter}

-- enum class PacketId
abbrev pub echo_request_id : ℕ
echo_request_id = 201

abbrev pub echo_response_id : ℕ
echo_response_id = 202

abbrev pub sum_request_id : ℕ
sum_request_id = 203

abbrev pub sum_response_id : ℕ
sum_response_id = 204

abbrev pub spawn_request_id : ℕ
spawn_request_id = 205

abbrev pub spawn_response_id : ℕ
spawn_response_id = 206

pub record EchoRequest : Type 0 where
  pub seq : ℕ
  pub text : List ℕ

pub record EchoResponse : Type 0 where
  pub seq : ℕ
  pub text : List ℕ
  pub server_time_ticks : ℕ

pub record SumRequest : Type 0 where
  pub values : List ℕ

pub record SumResponse : Type 0 where
  pub total : ℕ

-- `position` is a Vector3.
pub record Entity : Type 0 where
  pub id : ℕ
  pub position : List ℕ
  pub name : List ℕ

pub record SpawnRequest : Type 0 where
  pub count : ℕ

pub record SpawnResponse : Type 0 where
  pub entities : List Entity

abbrev pub echo_request_members : List (Member EchoRequest)
echo_request_members =
    member (number_formatter 4) (λ p. p.seq) (λ v p. record p { seq = v })
    ∷ member string_formatter (λ p. p.text) (λ v p. record p { text = v })
    ∷ []

abbrev pub echo_response_members : List (Member EchoResponse)
echo_response_members =
    member (number_formatter 4) (λ p. p.seq) (λ v p. record p { seq = v })
    ∷ member string_formatter (λ p. p.text) (λ v p. record p { text = v })
    ∷ member (number_formatter 8) (λ p. p.server_time_ticks)
        (λ v p. record p { server_time_ticks = v })
    ∷ []

abbrev pub sum_request_members : List (Member SumRequest)
sum_request_members =
    member (number_vector_formatter 4) (λ p. p.values) (λ v p. record { values = v }) ∷ []

abbrev pub sum_response_members : List (Member SumResponse)
sum_response_members = member (number_formatter 8) (λ p. p.total) (λ v p. record { total = v }) ∷ []

abbrev pub entity_members : List (Member Entity)
entity_members =
    member (number_formatter 4) (λ p. p.id) (λ v p. record p { id = v })
    ∷ member (floats_formatter 3) (λ p. p.position) (λ v p. record p { position = v })
    ∷ member string_formatter (λ p. p.name) (λ v p. record p { name = v })
    ∷ []

abbrev pub spawn_request_members : List (Member SpawnRequest)
spawn_request_members =
    member (number_formatter 4) (λ p. p.count) (λ v p. record { count = v }) ∷ []

-- MEMORYPACK_DEFINE for each.
abbrev pub echo_request_formatter : Formatter EchoRequest
echo_request_formatter = object_formatter (record { seq = 0; text = [] }) echo_request_members

abbrev pub echo_response_formatter : Formatter EchoResponse
echo_response_formatter =
    object_formatter (record { seq = 0; text = []; server_time_ticks = 0 }) echo_response_members

abbrev pub sum_request_formatter : Formatter SumRequest
sum_request_formatter = object_formatter (record { values = [] }) sum_request_members

abbrev pub sum_response_formatter : Formatter SumResponse
sum_response_formatter = object_formatter (record { total = 0 }) sum_response_members

abbrev pub entity_formatter : Formatter Entity
entity_formatter =
    object_formatter (record { id = 0; position = 0 ∷ 0 ∷ 0 ∷ []; name = [] }) entity_members

abbrev pub spawn_request_formatter : Formatter SpawnRequest
spawn_request_formatter = object_formatter (record { count = 0 }) spawn_request_members

abbrev pub spawn_response_members : List (Member SpawnResponse)
spawn_response_members =
    member (vector_formatter entity_formatter) (λ p. p.entities) (λ v p. record { entities = v })
    ∷ []

abbrev pub spawn_response_formatter : Formatter SpawnResponse
spawn_response_formatter = object_formatter (record { entities = [] }) spawn_response_members
