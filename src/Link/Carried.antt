-- ===== src/Link/Carried.antt =====
-- One stream between the two sides: what is written on it is what the other side reads.
use sonotxt_rust.Base.{
  ℕ, ◌^◌, ◌<◌, ◌≡◌, refl, ap, ◌∙◌, sym, Option, some, [], append-nil, arith, length,
}
use sonotxt_rust.Base.Bytes.{Bytes}
use sonotxt_rust.Base.Errors.{ApiError, ok, err}
use sonotxt_rust.Base.Action.{◌>>=◌}
use sonotxt_rust.Wire.{Message, finished_early, write_message, read_message, read_exact}
use sonotxt_rust.Wire.Streams.{read_message-write_message}
use sonotxt_rust.Noise.{Snow}
use sonotxt_rust.Link.{Json}
use sonotxt_rust.Link.Processor.{Services}
use sonotxt_rust.Link.Server.{Host, handle_stream, serve, answer}
use sonotxt_rust.Link.Client.{QuicWorkerConn, exchange}

-- serde_json gives the message back, and its JSON fits the length prefix.
pub record Carries (json : Json) (m : Message) : Type 0 where
  pub back : json.to_message (json.of_message m) ≡ some m
  pub fits : length (json.of_message m) < 2 ^ 32

pub carried :
    (json : Json) (m : Message)
    → Carries json m
    → read_message json.to_message (write_message json.of_message [] m) ≡ ok (m, [])
carried json m h =
    ap (read_message json.to_message) (sym (append-nil (write_message json.of_message [] m)))
    ∙ read_message-write_message json.of_message json.to_message m h.fits [] h.back

pub read_nothing :
    (from_slice : Bytes → Option Message) → read_message from_slice [] ≡ err finished_early
unfolding read_message read_exact
read_nothing from_slice = refl

module _ (json : Json) (sha256 : Bytes → Bytes) (quote : Bytes) (services : Services) (snow : Snow)
    (drawn : ℕ) where
  pub serve-write :
      (m : Message) (w w' : Host snow) (reply : Bytes)
      → Carries json m
      → answer json sha256 quote services snow drawn m w ≡ (ok reply, w')
      → serve json sha256 quote services snow drawn (write_message json.of_message [] m) w
        ≡ (reply, w')
  unfolding serve handle_stream ◌>>=◌
  serve-write m w w' reply h answered = ground (arith, carried json m h)

module _ (json : Json) (snow : Snow) (W : Type 0) (serve : (recv : Bytes) → W → Bytes × W)
    (c : QuicWorkerConn snow W) (w' : W) (m : Message) where
  pub exchange-replied :
      (reply : Message)
      → Carries json reply
      → serve (write_message json.of_message [] m) c.worker
        ≡ (write_message json.of_message [] reply, w')
      → exchange json snow W serve m c ≡ (ok reply, record c { worker = w' })
  unfolding exchange
  exchange-replied reply h served = ground (arith, carried json reply h)

  pub exchange-silent :
      serve (write_message json.of_message [] m) c.worker ≡ ([], w')
      → exchange json snow W serve m c ≡ (err ApiError.internal_error, record c { worker = w' })
  unfolding exchange
  exchange-silent served = ground (arith, read_nothing json.to_message)
