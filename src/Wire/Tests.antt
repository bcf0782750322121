-- ===== src/Wire/Tests.antt =====
-- Runs of the encoding with a toy serde_json: every message is the two bytes of a health request.
use sonotxt_rust.Base.{◌≡◌, refl, Option, some, none, [], ◌∷◌, ◌++◌, arith, length}
use sonotxt_rust.Base.Errors.{ok}
use sonotxt_rust.Base.Bytes.{Bytes, u32_from_le_bytes, u32_to_le_bytes}
use sonotxt_rust.Wire.{Message, health_request, encode, decode, write_message, read_message}
use sonotxt_rust.Wire.Streams.{read_message-write_message}

abbrev to_vec : Message → Bytes
to_vec m = 123 ∷ 125 ∷ []

abbrev from_slice : Bytes → Option Message
from_slice [] = none
from_slice (b ∷ bs) = some health_request

abbrev two_messages : Bytes
two_messages = 1 ∷ 0 ∷ 0 ∷ 0 ∷ 123 ∷ 1 ∷ []

decode_two : decode from_slice two_messages ≡ ok (health_request, 5)
unfolding decode u32_from_le_bytes
decode_two = refl

read_message-write_message_example :
    read_message from_slice (write_message to_vec [] health_request ++ 9 ∷ [])
    ≡ ok (health_request, 9 ∷ [])
read_message-write_message_example =
    read_message-write_message to_vec from_slice health_request (omega arith) (9 ∷ []) refl

six_bytes : length (encode to_vec health_request) ≡ 6
unfolding encode u32_to_le_bytes
six_bytes = refl
