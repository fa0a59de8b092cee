-- ===== src/Relay/Rounds.antt =====
-- internal/relay/dial.go: `Dial`, a single dial without retries, and the address that it and `DialWithRetry` dial.
use aztunnel.Common.{Option, none, some, ◌++◌}
use aztunnel.Common.Text.{Bytes, codes}
use aztunnel.GoError.{Err, wrap, text}
use aztunnel.Relay.Sas.{endpoint_to_wss, resource_uri}

-- `url.PathEscape` and `url.QueryEscape`.
pub record Escaping : Type 0 where
  pub path_escape : Bytes → Bytes
  pub query_escape : Bytes → Bytes

unfoldable pub connect_url : Escaping → (endpoint entity_path token : Bytes) → Bytes
connect_url esc endpoint entity_path token =
    endpoint_to_wss endpoint
    ++ codes "/$hc/"
    ++ esc.path_escape entity_path
    ++ codes "?sb-hc-action=connect&sb-hc-token="
    ++ esc.query_escape token

-- The token, or the error of the provider.
pub data Acquired : Type 0 where
  acquired : Bytes → Acquired
  no_token : Err → Acquired

-- What the provider is asked, what is dialled, and the error, redacted, of the dial.
pub record Round : Type 0 where
  pub asked_for : Bytes
  pub dialled_url : Option Bytes
  pub err : Option Err

abbrev dial_error : Option Err → Option Err
dial_error none = none
dial_error (some e) = some (wrap (text (codes "dial relay")) e)

-- `Dial`, with what the dial of an address gives.
unfoldable pub dial :
    Escaping → (endpoint entity_path : Bytes) → (Bytes → Acquired) → (Bytes → Option Err) → Round
dial esc endpoint entity_path get_token web_dial =
    let resource = resource_uri endpoint entity_path in
    elim (get_token resource) [
      | no_token e ↦ record {
        asked_for = resource;
        dialled_url = none;
        err = some (wrap (text (codes "get token")) e);
      }
      | acquired token ↦
          let url = connect_url esc endpoint entity_path token in
          record { asked_for = resource; dialled_url = some url; err = dial_error (web_dial url) }
    ]
