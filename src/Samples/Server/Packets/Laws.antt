-- ===== src/Samples/Server/Packets/Laws.antt =====
-- samples/CppServer/packets.hpp: the server's packets through the laws of the library.
use memory_pack_cpp.Base.{refl, arith}
use memory_pack_cpp.Format.{Lawful, IsSafe}
use memory_pack_cpp.Format.Primitives.{number-Lawful, number-IsSafe, string-Lawful, string-IsSafe}
use memory_pack_cpp.Format.Vectors.Laws.{number_vector-IsSafe}
use memory_pack_cpp.Format.Objects.Laws.{object-IsSafe, object-Lawful}
use memory_pack_cpp.Format.Steady.{
  IsSteady, number-IsSteady, string-IsSteady, floats-IsSteady, object-IsSteady, vector-IsSteady,
}
use memory_pack_cpp.Samples.Server.Packets.{
  echo_request_members, echo_response_members, sum_request_members, sum_response_members,
  entity_members, spawn_request_members, spawn_response_members, echo_request_formatter,
  echo_response_formatter, sum_request_formatter, sum_response_formatter, entity_formatter,
  spawn_request_formatter, spawn_response_formatter,
}

-- Requests can be read from any input.
pub echo_request-IsSafe : IsSafe echo_request_formatter
echo_request-IsSafe =
    object-IsSafe echo_request_formatter.init echo_request_members
      (number-IsSafe 4, (string-IsSafe, tt))

pub sum_request-IsSafe : IsSafe sum_request_formatter
sum_request-IsSafe =
    object-IsSafe sum_request_formatter.init sum_request_members (number_vector-IsSafe 4, tt)

pub spawn_request-IsSafe : IsSafe spawn_request_formatter
spawn_request-IsSafe =
    object-IsSafe spawn_request_formatter.init spawn_request_members (number-IsSafe 4, tt)

-- Responses can be written, whatever they hold.
pub echo_response-IsSteady : IsSteady echo_response_formatter
echo_response-IsSteady =
    object-IsSteady echo_response_formatter.init echo_response_members
      (number-IsSteady 4, (string-IsSteady, (number-IsSteady 8, tt)))

pub sum_response-IsSteady : IsSteady sum_response_formatter
sum_response-IsSteady =
    object-IsSteady sum_response_formatter.init sum_response_members (number-IsSteady 8, tt)

entity-IsSteady : IsSteady entity_formatter
entity-IsSteady =
    object-IsSteady entity_formatter.init entity_members
      (number-IsSteady 4, (floats-IsSteady 3, (string-IsSteady, tt)))

pub spawn_response-IsSteady : IsSteady spawn_response_formatter
spawn_response-IsSteady =
    object-IsSteady spawn_response_formatter.init spawn_response_members
      (vector-IsSteady entity_formatter entity-IsSteady, tt)

-- The encodings of the responses.
abbrev pub echo_response_laws : Lawful echo_response_formatter
echo_response_laws =
    object-Lawful echo_response_formatter.init echo_response_members
      (number-Lawful 4 (omega arith), (string-Lawful, (number-Lawful 8 (omega arith), tt)))
      (omega arith) (λ v old. refl)

abbrev pub sum_response_laws : Lawful sum_response_formatter
sum_response_laws =
    object-Lawful sum_response_formatter.init sum_response_members
      (number-Lawful 8 (omega arith), tt) (omega arith) (λ v old. refl)
