-- ===== src/WebSocketClient.antt =====
-- Depends/Asula/Include/Asula/WebSocketClient.hpp. The stream is what its is_open returns and what
-- was written to it; how its calls end is an argument. Coroutines of the strand run one at a time,
-- each from one asynchronous call to the next, so a run of a client is a list of events. A message
-- handler is a number, and makes no calls of its client.
pub mod Urls
pub mod Receiver
pub mod Draining
pub mod Life
use mathlib.Core.List.{foldl}
use socker.Prelude.{
  ℕ, zero, suc, ◌-◌, ◌+◌, ◌%◌, ◌^◌, Bool, true, false, not, ◌&&◌, ◌||◌, Option, none, some, List,
  [], ◌∷◌, ◌++◌, if◌then◌else◌, ltb, ◌==◌, is_empty, drop, take, map,
}
use socker.Text.{Text, bytes, text_eq, find_first_of, substr_to, is_prefix, tolower}

pub record Url : Type 0 where
  pub protocol : Text
  pub host : Text
  pub port : ℕ
  pub target : Text

-- Url::isValid
unfoldable pub is_valid : Url → Bool
is_valid u =
    u.protocol == bytes "ws" && not (is_empty u.host) && ltb 0 u.port && not (is_empty u.target)

-- the members' defaults
abbrev pub default_url : Url
default_url = record { protocol = bytes "ws"; host = []; port = 80; target = bytes "/" }

-- boost::istarts_with, which compares in upper or lower case of the C locale
abbrev pub istarts_with : Text → Text → Bool
istarts_with s t = is_prefix (map tolower t) (map tolower s)

-- u.target after the end of UrlFromString
abbrev pub with_target : Option ℕ → Text → Url → Url
with_target none temp u = u
with_target (some slash) temp u = record u { target = drop slash temp }

-- temp.substr(colonPos + 1, slashPos - colonPos), where the count is unsigned and wraps below 0,
-- and everything behind the colon without a slash
abbrev pub port_text : ℕ → Option ℕ → Text → Text
port_text colon none temp = drop (suc colon) temp
port_text colon (some slash) temp =
    let rest = drop (suc colon) temp in if ltb slash colon then rest else take (slash - colon) rest

-- boost::lexical_cast<uint16_t>, none for bad_lexical_cast
module _ (lexical_cast_u16 : Text → Option ℕ) where
  -- UrlFromString behind its first check, from the positions of the colon and the slash
  unfoldable pub url_parts : (colon slash : Option ℕ) → Text → Url
  url_parts (some colon) slash temp =
      let u : Url = record default_url { host = take colon temp } in
      elim (lexical_cast_u16 (port_text colon slash temp)) [
        | none ↦ record u { port = 0 }
        | some port ↦ with_target slash temp (record u { port = port })
      ]
  url_parts none slash temp =
      with_target slash temp (record default_url { host = substr_to slash temp; port = 80 })

  -- UrlFromString(url)
  unfoldable pub url_from_string : Text → Url
  url_from_string url =
      let temp = drop 5 url in
      if not (istarts_with url (bytes "ws://"))
      then default_url
      else url_parts (find_first_of b':' temp) (find_first_of b'/' temp) temp

-- Which members of a client its operations use. `thread` is receiveThread_: none for null, and
-- whether the thread can be joined. `starting` coroutines of doReceive have not begun, and `waiting`
-- ones wait for a read. `handled` has the calls of message handlers, the first one first.
pub record Client : Type 0 where
  pub is_open : Bool
  pub written : List Text
  pub interrupted : Bool
  pub thread : Option Bool
  pub handler : Option ℕ
  pub starting : ℕ
  pub waiting : ℕ
  pub handled : List (ℕ × Text)

-- Client(threadCount)
abbrev pub new_client : Client
new_client = record {
  is_open = false;
  written = [];
  interrupted = false;
  thread = none;
  handler = none;
  starting = 0;
  waiting = 0;
  handled = [];
}

-- how the calls of open end: with an error or not, and what is_open returns after the handshake
pub record Opening : Type 0 where
  pub resolved : Bool
  pub connected : Bool
  pub shook_hands : Bool
  pub is_open_after : Bool

-- open(url)
unfoldable pub open_url : (Text → Option ℕ) → Text → Opening → Client → Client × Bool
open_url cast url net c =
    if not (is_valid (url_from_string cast url))
    then (c, false)
    else if not net.resolved
    then (c, false)
    else if not net.connected
    then (c, false)
    else (record c { is_open = net.is_open_after }, net.shook_hands)

unfoldable pub start_receiver : Client → Client
start_receiver c =
    let running : Bool = elim c.thread [ none ↦ false | some joinable ↦ not c.interrupted ] in
    let has_handler : Bool = elim c.handler [ none ↦ false | some h ↦ true ] in
    if running
    then c
    else if not has_handler
    then c
    else if not c.is_open
    then c
    else record c { interrupted = false; thread = some true; starting = suc c.starting }

unfoldable pub stop_receiver : Client → Client
stop_receiver c = record c { interrupted = true; thread = none }

-- onMessage(handler)
unfoldable pub on_message : Option ℕ → Client → Client
on_message handler c =
    let c' : Client = record c { handler = handler } in
    elim handler [ none ↦ stop_receiver c' | some h ↦ start_receiver c' ]

-- doSend(message)
unfoldable pub do_send : Text → Client → Client
do_send message c = if not c.is_open then c else record c { written = c.written ++ message ∷ [] }

-- doClose(), with what is_open returns after it
unfoldable pub do_close : (is_open_after : Bool) → Client → Client
do_close after c = if not c.is_open then c else record c { is_open = after }

-- the head of the loop of doReceive
unfoldable pub receive_next : Client → Client
receive_next c = if c.interrupted then c else record c { waiting = suc c.waiting }

-- A coroutine of doReceive begins.
unfoldable pub begin_receive : Client → Client
begin_receive c = elim c.starting [ zero ↦ c | suc n ↦ receive_next (record c { starting = n }) ]

-- The read of a waiting coroutine ends: none for an error, else with a message.
unfoldable pub end_read : Option Text → Client → Client
end_read result c = elim c.waiting [
  | zero ↦ c
  | suc n ↦
      let c' : Client = record c { waiting = n } in
      elim result [
        | none ↦ c'
        | some message ↦ elim c.handler [
          | none ↦ receive_next c'
          | some h ↦ receive_next (record c' { handled = c.handled ++ (h, message) ∷ [] })
        ]
      ]
]

-- what happens to a client: calls of its operations, and steps of its coroutines
pub data Event : Type 0 where
  opens : Text → Opening → Event
  sets_handler : Option ℕ → Event
  sends : Text → Event
  closes : (is_open_after : Bool) → Event
  begins : Event
  reads : Option Text → Event

unfoldable pub step : (Text → Option ℕ) → Client → Event → Client
step cast c (opens url net) = (open_url cast url net c).0
step cast c (sets_handler h) = on_message h c
step cast c (sends message) = do_send message c
step cast c (closes after) = do_close after c
step cast c begins = begin_receive c
step cast c (reads result) = end_read result c

unfoldable pub run : (Text → Option ℕ) → List Event → Client → Client
run cast [] c = c
run cast (e ∷ es) c = run cast es (step cast c e)
