-- ===== src/Http/Proxy/Forward.antt =====
-- What the proxy sends on.
use computer_network.Prelude.{
  ◌≡◌, ◌≢◌, ◌⊎◌, inl, inr, refl, ◌∙◌, Bool-cases, true, false, [], ◌∷◌, ◌++◌, Option, none, some,
  arith, bytes_eq, bytes_eq_refl, eq_of_bytes_eq, if◌then◌else◌,
}
use computer_network.Prelude.Result.{ok}
use computer_network.Prelude.Text.{c_string}
use computer_network.Http.Request.{Bytes, RequestLine, ParsedRequest}
use computer_network.Http.Headers.{parsed_header_get, parsed_header_set}
use computer_network.Http.Headers.Table.{IsTable}
use computer_network.Http.Headers.Refine.{parsed_header_set-IsHeld}
use computer_network.Http.Unparse.{
  print_line, print_lines, parsed_request_total_len, parsed_request_unparse,
}
use computer_network.Http.Unparse.Size.{parsed_request_unparse-size}
use computer_network.Http.Proxy.{
  Remote, http_1_0, http_1_1, get_method, connection_key, close_value, host_key, ask_remote,
  port_or_80, lower_version, forward_request,
}

-- The line that is sent on: HTTP/1.0 in place of HTTP/1.1, and all else as it was.
pub record IsLowered (l l2 : RequestLine) : Type 0 where
  pub same : l2 ≡ record l { version = l2.version }
  pub version :
      ((l.version ≡ http_1_1) × (l2.version ≡ http_1_0))
      ⊎ ((l.version ≢ http_1_1) × (l2.version ≡ l.version))

-- The port that is asked.
pub data IsPort : Option Bytes → Bytes → Type 0 where
  given : (port : Bytes) → IsPort (some port) port
  not_given : IsPort none (b'8' ∷ b'0' ∷ [])

-- The request that is sent on, with its line.
pub record IsForwarded (pr : ParsedRequest) (l : RequestLine) (pr2 : ParsedRequest)
    (l2 : RequestLine) : Type 0 where
  pub line : pr2.line ≡ some l2
  pub lowered : IsLowered l l2
  pub get :
      (j : Bytes)
      → parsed_header_get pr2 j ≡ (
          if bytes_eq host_key j
          then some (record { key = host_key; value = l.host })
          else if bytes_eq connection_key j
          then some (record { key = connection_key; value = close_value })
          else parsed_header_get pr j)

lower_version-IsLowered : (l : RequestLine) → IsLowered l (lower_version l)
lower_version-IsLowered l = elim (Bool-cases (bytes_eq l.version http_1_1)) [
  | inl same ↦ record {
    same = ground (arith, same);
    version = inl (eq_of_bytes_eq l.version http_1_1 same, ground (arith, same));
  }
  | inr other ↦ record {
    same = ground (arith, other);
    version = inr ((λ e. differs l.version e other), ground (arith, other));
  }
]
  where
    differs : (v : Bytes) → v ≡ http_1_1 → bytes_eq v http_1_1 ≡ false → ⊥
    differs v e other =
        let equal : bytes_eq v http_1_1 ≡ true = rw e (bytes_eq_refl http_1_1) in
        ground (arith, equal, other)

with_line-get :
    (pr : ParsedRequest) (line : Option RequestLine) (j : Bytes)
    → parsed_header_get (record pr { line = line }) j ≡ parsed_header_get pr j
unfolding parsed_header_get
with_line-get pr line j = refl

forward_request_run :
    (remote : Remote) (behind : Bytes) (pr pr1 pr2 : ParsedRequest) (l : RequestLine)
    (request : Bytes)
    → pr.line ≡ some l
    → l.method ≡ get_method
    → parsed_header_set (record pr { line = some (lower_version l) }) connection_key close_value
      ≡ ok pr1
    → parsed_header_set pr1 host_key l.host ≡ ok pr2
    → parsed_request_unparse pr2 (parsed_request_total_len pr2) ≡ some request
    → forward_request remote behind pr
      ≡ ok (ask_remote remote l.host (port_or_80 l.port) (c_string (request ++ behind)))
unfolding forward_request
forward_request_run remote behind pr pr1 pr2 l request line method set1 set2 printed =
    let get : bytes_eq l.method get_method ≡ true = rw method (bytes_eq_refl get_method) in
    ground (arith, line, get, set1, set2, printed)

pub forward_request-IsForwarded :
    (remote : Remote) (behind : Bytes) (pr : ParsedRequest) (l : RequestLine)
    → IsTable pr
    → pr.line ≡ some l
    → l.method ≡ get_method
    → (pr2 : ParsedRequest) × (forward_request remote behind pr
        ≡ ok (
            ask_remote remote l.host
              (port_or_80 l.port)
              (c_string ((print_line (lower_version l) ++ print_lines pr2.headers) ++ behind))))
      × IsForwarded pr l pr2 (lower_version l)
forward_request-IsForwarded remote behind pr l table line method =
    let start : ParsedRequest = record pr { line = some (lower_version l) } in
    let (pr1, s1) =
      parsed_header_set-IsHeld start connection_key close_value
        (record { distinct = table.distinct; room = table.room }) in
    let (pr2, s2) = parsed_header_set-IsHeld pr1 host_key l.host s1.table in
    let line2 : pr2.line ≡ some (lower_version l) = s2.line ∙ s1.line in
    let (unparse, size) =
      parsed_request_unparse-size pr2 (lower_version l) (parsed_request_total_len pr2) line2 in
    let printed : parsed_request_unparse pr2 (parsed_request_total_len pr2)
        ≡ some (print_line (lower_version l) ++ print_lines pr2.headers) =
      unparse ∙ ground arith in
    (
      pr2,
      forward_request_run remote behind pr pr1 pr2 l _ line method s1.done s2.done printed,
      record {
        line = line2;
        lowered = lower_version-IsLowered l;
        get = λ j. s2.get j ∙ ground (arith, s1.get j, with_line-get pr (some (lower_version l)) j);
      },
    )
