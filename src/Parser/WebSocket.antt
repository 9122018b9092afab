-- ===== src/Parser/WebSocket.antt =====
-- pkg/parser/websocket/parser.go: an upgraded HTTP request whose two streams another parser handles.
-- The upgrade, the dialling and the URLs belong to gorilla/websocket and net/url.
pub mod Conn
pub mod LikeTcp
use mproxy.Prelude.{
  ℕ, String, Bool, true, false, not, ◌&&◌, ◌||◌, Option, none, some, List, [], ◌∷◌, str_eq,
  if◌then◌else◌,
}
use mproxy.Errors.{Err, other, wrapped, ◌^^◌}
use mproxy.Errors.Results.{Result, ok, fail, panic}
use mproxy.Handler.{Context, Handler, new_context}
use mproxy.Parser.{Direction, upstream, downstream, Parser}

pub record Request : Type 0 where
  pub origin : String
  pub host : String
  pub remote_addr : String
  pub path : String
  pub raw_query : String

-- `CheckOrigin`: no origin, or that of the request's own host.
unfoldable pub check_origin : Request → Bool
check_origin r =
    if str_eq r.origin ""
    then true
    else str_eq r.origin ("http://" ^^ r.host) || str_eq r.origin ("https://" ^^ r.host)

-- A URL as net/url has it: what is not changed, of type `U`, the path and the query.
pub record Url (U : Type 0) : Type 0 where
  pub base : U
  pub path : String
  pub raw_query : String

-- `upgrade` is what else the upgrader may object to, besides the origin.
pub record Outside (U : Type 0) : Type 0 where
  pub upgrade : Request → Option Err
  pub parse_url : String → Result (Url U)
  pub url_text : Url U → String
  pub dial : String → Option Err

abbrev pub origin_not_allowed : Err
origin_not_allowed = other "websocket: request origin not allowed by Upgrader.CheckOrigin"

-- The upgrader refuses a request that `CheckOrigin` refuses, or for another reason.
unfoldable pub upgrade : {U : Type 0} → Outside U → Request → Option Err
upgrade o r = if check_origin r then o.upgrade r else some origin_not_allowed

abbrev pub with_request : {U : Type 0} → Request → Url U → Url U
with_request r target = record target { path = r.path; raw_query = r.raw_query }

-- `buildTargetURL`.
unfoldable pub build_target_url : {U : Type 0} → Outside U → String → Request → Result String
build_target_url o target_url r = elim (o.parse_url target_url) [
  | ok target ↦ ok (o.url_text (with_request r target))
  | fail e ↦ fail (wrapped "failed to parse target URL" e)
  | panic ↦ panic
]

-- The two goroutines of `ServeHTTP`: which have sent their error, and whether it has returned.
pub record Session (S W : Type 0) : Type 0 where
  pub context : Context
  pub up_done : Bool
  pub down_done : Bool
  pub closed : Bool
  pub state : S
  pub net : W

unfoldable pub new_session : {S W : Type 0} → String → Request → S → W → Session S W
new_session id r s w = record {
  context = new_context id r.remote_addr "websocket";
  up_done = false;
  down_done = false;
  closed = false;
  state = s;
  net = w;
}

module _ {S W R : Type 0} (h : Handler S) (parser : Direction → Parser S R W) where
  unfoldable pub stream_ended : Session S W → Direction → Bool
  stream_ended x upstream = x.up_done
  stream_ended x downstream = x.down_done

  unfoldable pub end_stream : Session S W → Direction → Option Err → Session S W
  end_stream x dir none = x
  end_stream x upstream (some e) = record x { up_done = true }
  end_stream x downstream (some e) = record x { down_done = true }

  -- A round of the loop of `stream`. The context is cancelled only when `ServeHTTP` returns.
  unfoldable pub stream_round : Session S W → Direction → R → Session S W
  stream_round x dir r =
      let o = parser dir r dir x.state x.context x.net in
      if stream_ended x dir
      then x
      else end_stream (record x { context = o.hctx; state = o.state; net = o.out }) dir o.error

  -- Rounds of the two streams in the order in which they come.
  unfoldable pub stream_rounds : Session S W → List (Direction × R) → Session S W
  stream_rounds x [] = x
  stream_rounds x (p ∷ ps) = stream_rounds (stream_round x (p.0) (p.1)) ps

  -- After both errors `ServeHTTP` tells the handler and returns, which closes both connections.
  unfoldable pub finish : Session S W → Session S W
  finish x =
      if x.up_done && x.down_done
      then record x {
        context = (h.on_disconnect x.state x.context).1;
        state = (h.on_disconnect x.state x.context).0;
        closed = true;
      }
      else x

pub data Served (S W : Type 0) : Type 0 where
  not_upgraded no_target undialed : Err → Served S W
  crashed : Served S W
  session : Session S W → Served S W

-- `ServeHTTP` of a request, with the rounds of its streams that come before the end.
module _ {S W R U : Type 0} (h : Handler S) (parser : Direction → Parser S R W)
    (o : Outside U) where
  unfoldable pub serve_dialed : Option Err → Session S W → List (Direction × R) → Served S W
  serve_dialed (some e) x rounds = undialed e
  serve_dialed none x rounds = session (finish h parser (stream_rounds h parser x rounds))

  unfoldable pub serve_target : Result String → Session S W → List (Direction × R) → Served S W
  serve_target (fail e) x rounds = no_target e
  serve_target panic x rounds = crashed
  serve_target (ok url) x rounds = serve_dialed (o.dial url) x rounds

  unfoldable pub serve_upgraded :
      Option Err → String → String → Request → S → W → List (Direction × R) → Served S W
  serve_upgraded (some e) target_url id r s w rounds = not_upgraded e
  serve_upgraded none target_url id r s w rounds =
      serve_target (build_target_url o target_url r) (new_session id r s w) rounds

  unfoldable pub serve_http : String → String → Request → S → W → List (Direction × R) → Served S W
  serve_http target_url id r s w rounds = serve_upgraded (upgrade o r) target_url id r s w rounds
