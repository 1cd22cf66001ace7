-- ===== src/TelnetProxy/Order.antt =====
-- The packets for the back end in cowrie/src/cowrie/telnet_proxy/handler.py: kept until there is a client.
use honeybee_potstore.Base.{◌≡◌, false, List, [], ◌∷◌, ◌++◌, Result, ok}
use honeybee_potstore.Base.Text.{Bytes}
use honeybee_potstore.TelnetProxy.Handler.{
  Outside, Handler, Move, ◌>>◌, done, set_client, is_logging, send_backend,
}

-- What happens: a packet is sent to the back end, or the connection to it is made.
pub data Act : Type 0 where
  sends : (content : Bytes) → Act
  joins : Act

abbrev pub do_act : Outside → Act → Move
do_act o (sends content) = send_backend o content
do_act o joins = set_client

unfoldable pub do_all : Outside → List Act → Move
do_all o [] = done
do_all o (a ∷ acts) = do_act o a >> do_all o acts

abbrev pub packets_of : List Act → List Bytes
packets_of [] = []
packets_of (sends content ∷ acts) = content ∷ packets_of acts
packets_of (joins ∷ acts) = packets_of acts

abbrev pub all_packets : Handler → List Bytes
all_packets p = p.to_backend ++ p.backend_buffer

abbrev Passes : Handler → List Bytes → Result (Unit {0}) × Handler → Type 0
Passes p ps r = (r.0 ≡ ok tt) × (is_logging r.1 ≡ false) × (all_packets r.1 ≡ all_packets p ++ ps)

abbrev Sent : Handler → List Bytes → Result (Unit {0}) × Handler → Type 0
Sent p ps r =
    (r.0 ≡ ok tt)
    × (is_logging r.1 ≡ false)
    × (r.1.backend_buffer ≡ [])
    × (r.1.to_backend ≡ p.to_backend ++ ps)
