-- ===== src/Examples/Mocks.antt =====
-- Runs of the mock relay's bridge, timing, tokens and addresses, of the redaction, and of the dial of internal/arc.
use aztunnel.Common.{
  ℕ, ◌+◌, ◌-◌, ◌*◌, ◌^◌, ◌≤◌, ◌≡◌, refl, true, false, not, Option, none, some, List, [], ◌∷◌, ◌++◌,
  arith, pos, ℤ, min, leb, if◌then◌else◌, inl, inr, All, ◌⊎◌,
}
use aztunnel.Common.Text.{Bytes, codes, bytes_eq, decimal, split, cut}
use aztunnel.Common.Query.{is_unreserved}
use aztunnel.Examples.Queries.{escape, parse, escape-QueryLaws}
use aztunnel.GoError.{leaf, eof}
use aztunnel.MockRelay.Pipeline.{
  binary_message, text_message, PipeEvent, read_message, acquire, enqueue, dequeue, wake,
  write_returns, start, pipe_run,
}
use aztunnel.MockRelay.Flow.{Budgeted, pipe_run-Budgeted}
use aztunnel.MockRelay.Delay.{delay_profile_default, max_of, predicted_rendezvous_for}
use aztunnel.MockRelay.Rendezvous.{arriving, responding, answering}
use aztunnel.MockRelay.Handover.{begin}
use aztunnel.MockRelay.Timing.{
  connect_sleep, accept_sleep, connect_time, admitted, connect_time-predicted_rendezvous_for,
}
use aztunnel.Relay.Sas.{Library, unix, sign, generate_sas_token}
use aztunnel.MockRelay.Auth.{
  AuthConfig, expired, wrong_skn, signature_mismatch, TokenLibrary, validate_token,
}
use aztunnel.MockRelay.Tokens.{validate_token-generate_sas_token}
use aztunnel.MockRelay.Routes.{
  UrlLibrary, hc_prefix, handle_hc, to_accept, Inbound, Minted, rendezvous_url,
}
use aztunnel.MockRelay.Addresses.{rendezvous_url-handle_hc}
use aztunnel.Relay.Redact.{marker, redacted, redact, redact-append}
use aztunnel.Arc.Dial.{second, retry_max, connected, refused, Attempt, first, dial_loop}
use aztunnel.Arc.Waits.{waits, dial_loop-retry_delay}

-- Two messages, the second of which is larger than the budget.
abbrev two_messages : List PipeEvent
two_messages =
    read_message (record { typ = text_message; data_bytes = 1 ∷ 2 ∷ [] })
    ∷ acquire 0
    ∷ enqueue
    ∷ dequeue
    ∷ wake
    ∷ write_returns none
    ∷ read_message (record { typ = binary_message; data_bytes = 1 ∷ 2 ∷ 3 ∷ 4 ∷ [] })
    ∷ acquire 5
    ∷ enqueue
    ∷ []

pipe_run-Budgeted_example : Budgeted 3 (pipe_run 3 60 two_messages start)
pipe_run-Budgeted_example = pipe_run-Budgeted 3 60 two_messages

-- The default profile, with one listener that fails first.
connect_time-predicted_rendezvous_for_example :
    connect_time delay_profile_default true (admitted 1) (begin 0 1)
      + accept_sleep delay_profile_default arriving
      + max_of
          (connect_sleep delay_profile_default true responding)
          (accept_sleep delay_profile_default answering)
    ≡ predicted_rendezvous_for true delay_profile_default + 1 * delay_profile_default.l_latency
connect_time-predicted_rendezvous_for_example =
    connect_time-predicted_rendezvous_for delay_profile_default true 0 1 1

abbrev number : ℕ → Bytes → ℕ
number n [] = n
number n (c ∷ s) = number (n * 10 + (c - b'0')) s

-- A library that hashes by putting the key before the text, with the queries of `Queries`.
abbrev plain_sas : Library
plain_sas = record {
  hmac = λ key text. key ++ (46 ∷ text);
  base64 = λ bytes. bytes;
  to_lower = λ s. s;
  query_escape = escape;
  parse_query = λ s. some (parse s);
  parse_int = λ s. some (pos (number 0 s));
}

abbrev plain_jwt : TokenLibrary
plain_jwt = record {
  hmac = λ key text. key ++ text;
  raw_encode = λ bytes. bytes;
  raw_decode = λ bytes. some bytes;
  marshal_claims = λ exp. decimal exp;
  unmarshal_claims = λ bytes. none;
}

abbrev dev_config : AuthConfig
dev_config = record { sas_key_name = codes "dev"; sas_key = codes "k"; skip_auth = false }

-- A token of an hour, shown half an hour after it was made.
validate_token-generate_sas_token_example :
    validate_token plain_sas plain_jwt dev_config (1810 * second) (
      generate_sas_token plain_sas
        (10 * second)
        (codes "db")
        (codes "dev")
        (codes "k")
        (3600 * second))
    ≡ (if not (bytes_eq (codes "dev") (codes "dev"))
        then some wrong_skn
        else (if leb 3610 (unix (1810 * second))
            then some expired
            else (if bytes_eq
                  (sign plain_sas (escape (codes "db")) 3610 (codes "k"))
                  (sign plain_sas (escape (codes "db")) 3610 (codes "k"))
                then none
                else some signature_mismatch)))
unfolding bytes_eq sign decimal
validate_token-generate_sas_token_example =
    validate_token-generate_sas_token plain_sas plain_jwt dev_config (10 * second) (1810 * second)
      (codes "db") (codes "dev") (codes "k") (3600 * second) escape-QueryLaws refl refl refl refl
      refl refl refl

-- An escaping of paths that fits a name without special characters.
abbrev plain_urls : UrlLibrary
plain_urls = record {
  parse = λ s. none;
  to_lower = λ s. s;
  path_escape = λ s. s;
  path_unescape = λ s. some s;
  query_escape = escape;
  query = parse;
}

abbrev minted : Minted
minted = record {
  scheme = codes "wss";
  host = codes "relay:8443";
  path = codes "/$hc/db";
  raw_path = codes "/$hc/db";
  raw_query = codes "sb-hc-action=accept&id=a1";
}

rendezvous_url-handle_hc_example :
    (handle_hc plain_urls minted.raw_path minted.raw_query ≡ to_accept (codes "db") (codes "a1"))
    × (minted.path ≡ hc_prefix ++ codes "db")
unfolding bytes_eq escape is_unreserved rendezvous_url aztunnel.MockRelay.Routes.public_scheme_host
    aztunnel.MockRelay.Routes.ws_scheme
rendezvous_url-handle_hc_example =
    rendezvous_url-handle_hc plain_urls [] (codes "db") (codes "a1")
      (record { host = codes "relay:8443"; tls = true }) minted escape-QueryLaws (ground arith) refl
      refl refl refl

redact-append_example :
    redact (codes "& ") (codes "?" ++ (marker ++ (codes "s3cret" ++ codes "&id=1")))
    ≡ codes "?" ++ (marker ++ (redacted ++ redact (codes "& ") (codes "&id=1")))
unfolding aztunnel.Common.Search.find aztunnel.Common.Text.strip_prefix
    aztunnel.Common.Text.contains
redact-append_example =
    redact-append (codes "& ") (codes "?") (codes "s3cret") (codes "&id=1") refl
      (refl, (refl, (refl, (refl, (refl, (refl, tt)))))) refl

-- Three answers of 404, a second apart.
abbrev not_found : ℕ → Attempt
not_found t = record {
  outcome = refused (leaf eof) (some 404);
  at = t * second;
  over_dial = none;
  over_wait = none;
}

dial_loop-retry_delay_example : 2 * second ≡ min (second * 2 ^ 1) retry_max
unfolding dial_loop waits aztunnel.Arc.Dial.progress
dial_loop-retry_delay_example =
    dial_loop-retry_delay true (not_found 0 ∷ not_found 1 ∷ not_found 3 ∷ []) 1 (2 * second) refl
