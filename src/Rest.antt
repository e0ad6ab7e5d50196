-- ===== src/Rest.antt =====
-- `BinanceRESTClient::fetch_depth_snapshot` (include/BinanceRESTClient.h and
-- src/BinanceRESTClient.cpp). What the sockets give is a record, the JSON parser and the printing of a
-- number are arguments. `none` is the null value that `result` begins with.
mod Body
pub mod Snapshot
mod Tests
use quant_sim_x.Prelude.{
  ℕ, zero, suc, ◌+◌, Bool, true, false, not, ◌&&◌, ◌||◌, Option, none, some, List, [], ◌∷◌, ◌++◌,
  ◌==◌, take, drop, if◌then◌else◌,
}
use quant_sim_x.Prelude.Int.{ℤ, pos, negsuc}
use quant_sim_x.Prelude.Text.{Text, codes}

abbrev pub crlf : Text
crlf = 13 ∷ 10 ∷ []

abbrev pub base_url : Text
base_url = codes "api.binance.com"

-- `limit` is printed already.
unfoldable pub path_of : Text → Text → Text
path_of symbol limit = codes "/api/v3/depth?symbol=" ++ symbol ++ codes "&limit=" ++ limit

unfoldable pub request_of : Text → Text → Text
unfolding path_of
request_of symbol limit =
    (codes "GET " ++ path_of symbol limit ++ codes " HTTP/1.1" ++ crlf)
    ++ (codes "Host: " ++ base_url ++ crlf)
    ++ (codes "User-Agent: QuantSimX/1.0" ++ crlf)
    ++ (codes "Connection: close" ++ crlf)
    ++ crlf

-- `std::string::find` of a text, which is `none` for `npos`
abbrev pub starts_with : Text → Text → Bool
starts_with [] s = true
starts_with (c ∷ p) [] = false
starts_with (c ∷ p) (x ∷ s) = (c == x) && starts_with p s

abbrev pub next_place : Option ℕ → Option ℕ
next_place none = none
next_place (some n) = some (suc n)

unfoldable pub find : Text → Text → Option ℕ
find p [] = if starts_with p [] then some 0 else none
find p (c ∷ s) = if starts_with p (c ∷ s) then some 0 else next_place (find p s)

-- `find_first_of("{[")`
unfoldable pub find_json : Text → Option ℕ
find_json [] = none
find_json (c ∷ s) = if c == 123 || c == 91 then some 0 else next_place (find_json s)

-- `rfind('}')`
unfoldable pub find_brace : Text → Option ℕ
find_brace [] = none
find_brace (c ∷ s) =
    let later = find_brace s in
    elim later [ some n ↦ some (suc n) | none ↦ if c == 125 then some 0 else none ]

-- where the body starts; `none` where the response has no JSON
unfoldable pub body_start : Text → Option ℕ
unfolding find find_json
body_start response = elim (find (crlf ++ crlf) response) [
  | some n ↦ some (n + 4)
  | none ↦ elim (find (10 ∷ 10 ∷ []) response) [ some n ↦ some (n + 2) | none ↦ find_json response ]
]

-- the body up to its last brace
unfoldable pub cut_body : Text → Text
unfolding find_brace
cut_body body = elim (find_brace body) [ none ↦ body | some n ↦ take (n + 1) body ]

-- `response += buffer` for a buffer with a 0 at its end: up to the first 0
abbrev pub up_to_nul : Text → Text
up_to_nul [] = []
up_to_nul (c ∷ s) = if c == 0 then [] else c ∷ up_to_nul s

-- the loop over `recv`, with the bytes of each call until one that gives none
unfoldable pub receive : List Text → Text
receive [] = []
receive (c ∷ cs) = up_to_nul c ++ receive cs

-- How the loop over `recv` ends: with a call that gives no bytes, with an exception of `+=`, which the
-- memory for the response may lack, or not at all, while a call of `recv` waits for the peer.
pub data Ending : Type 0 where
  over no_memory waiting : Ending

-- What the calls of the system give. `received` has the bytes of each call of `recv` that gave some.
pub record Connection : Type 0 where
  -- whether `gethostbyname` knows the host
  pub host_known : Bool
  pub sock : ℤ
  pub connected : ℤ
  pub sent : ℤ
  pub received : List Text
  pub ending : Ending

abbrev pub fails : ℤ → Bool
fails (pos _) = false
fails (negsuc _) = true

-- The result, the request that was sent, whether the socket was opened and closed, and whether the
-- function returned.
pub record Fetched {ℓ} (Value : Type ℓ) : Type ℓ where
  pub result : Option Value
  pub request : Option Text
  pub opened : Bool
  pub closed : Bool
  pub returned : Bool

abbrev pub ended {ℓ} :
    {Value : Type ℓ} → Option Value → Option Text → Bool → Bool → Bool → Fetched Value
ended result request opened closed returned = record {
  result = result;
  request = request;
  opened = opened;
  closed = closed;
  returned = returned;
}

module _ {ℓ} {Value : Type ℓ} (parse : Text → Option Value) where
  -- `none` also where the parser throws, which ends the function with the null result
  unfoldable pub parse_response : Text → Option Value
  unfolding body_start cut_body
  parse_response response = elim (body_start response) [
    | none ↦ none
    | some n ↦ parse (cut_body (drop n response))
  ]

  unfoldable pub fetch_depth_snapshot : Text → Text → Connection → Fetched Value
  unfolding parse_response request_of receive
  fetch_depth_snapshot symbol limit c =
      let request = request_of symbol limit in
      if not c.host_known
      then ended none none false false true
      else if fails c.sock
      then ended none none false false true
      else if fails c.connected
      then ended none none true true true
      else if fails c.sent
      then ended none (some request) true true true
      else elim c.ending [
        | over ↦ ended (parse_response (receive c.received)) (some request) true true true
        -- the handler at the end, which knows nothing of the socket
        | no_memory ↦ ended none (some request) true false true
        | waiting ↦ ended none (some request) true false false
      ]
