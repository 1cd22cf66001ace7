-- ===== src/Nat/Relay.antt =====
-- What passes through a proxy (cowrie/src/backend_pool/nat.py, ServerProtocol and ClientProtocol).
use mathlib.Core.List.{append-nil, append_assoc}
use honeybee_potstore.Base.{
  ◌≡◌, refl, sym, ap, ◌∙◌, List, [], ◌∷◌, ◌++◌, none, some, err, attribute_error, arith,
}
use honeybee_potstore.Base.Text.{Bytes}
use honeybee_potstore.Nat.Proxy.{
  Transport, ServerProtocol, send_data, server_data_received, client_data_received, write_all,
  server_connection_lost,
}

-- A packet from Cowrie, or one from the guest.
pub data Packet : Type 0 where
  from_cowrie from_guest : Bytes → Packet

abbrev pub cowrie_packets : List Packet → List Bytes
cowrie_packets [] = []
cowrie_packets (from_cowrie s ∷ es) = s ∷ cowrie_packets es
cowrie_packets (from_guest s ∷ es) = cowrie_packets es

abbrev pub guest_packets : List Packet → List Bytes
guest_packets [] = []
guest_packets (from_cowrie s ∷ es) = guest_packets es
guest_packets (from_guest s ∷ es) = s ∷ guest_packets es

abbrev pub receive : Packet → ServerProtocol → ServerProtocol
receive (from_cowrie s) p = (server_data_received s p).1
receive (from_guest s) p = client_data_received s p

-- The packets arrive one after the other.
abbrev pub relay : List Packet → ServerProtocol → ServerProtocol
relay [] p = p
relay (e ∷ es) p = relay es (receive e p)

-- The state after the packets `forth` of Cowrie and `back` of the guest: with the first of Cowrie's
-- goes all that waited in the buffer.
abbrev pub passed : List Bytes → List Bytes → Transport → ServerProtocol → ServerProtocol
passed [] back t p = record p { transport = write_all back p.transport }
passed (s ∷ forth) back t p = record p {
  client_protocol = some (write_all (p.buffer ++ s ∷ forth) t);
  buffer = [];
  transport = write_all back p.transport;
}

written-nil : (t : Transport) → write_all [] t ≡ t
written-nil t = ap (λ xs. record t { written = xs }) (append-nil t.written)

written-append :
    (xs ys : List Bytes) (t : Transport) → write_all ys (write_all xs t) ≡ write_all (xs ++ ys) t
written-append xs ys t = ap (λ zs. record t { written = zs }) (append_assoc t.written xs ys)

-- A packet of Cowrie, and those that come after it.
passed-after :
    (s : Bytes) (forth back : List Bytes) (t : Transport) (p : ServerProtocol)
    → passed forth back
        (write_all (p.buffer ++ s ∷ []) t)
        (record p { client_protocol = some (write_all (p.buffer ++ s ∷ []) t); buffer = [] })
      ≡ passed (s ∷ forth) back t p
passed-after s [] back t p = refl
passed-after s (r ∷ forth) back t p =
    ap
      (λ u. record p {
        client_protocol = some u;
        buffer = [];
        transport = write_all back p.transport;
      })
      (written-append (p.buffer ++ s ∷ []) (r ∷ forth) t
        ∙ ap (λ xs. write_all xs t) (append_assoc p.buffer (s ∷ []) (r ∷ forth)))

passed-back :
    (s : Bytes) (forth back : List Bytes) (t : Transport) (p : ServerProtocol)
    → passed forth back t (record p { transport = write_all (s ∷ []) p.transport })
      ≡ passed forth (s ∷ back) t p
passed-back s [] back t p =
    ap (λ u. record p { transport = u }) (written-append (s ∷ []) back p.transport)
passed-back s (r ∷ forth) back t p =
    ap
      (λ u. record p {
        client_protocol = some (write_all (p.buffer ++ r ∷ forth) t);
        buffer = [];
        transport = u;
      })
      (written-append (s ∷ []) back p.transport)

received :
    (s : Bytes) (t : Transport) (p : ServerProtocol)
    → p.client_protocol ≡ some t
    → receive (from_cowrie s) p
      ≡ record p { client_protocol = some (write_all (p.buffer ++ s ∷ []) t); buffer = [] }
unfolding server_data_received send_data
received s t p c = rw c refl

-- Once the guest is connected, every packet goes to the other side, each way in order, none lost
-- and none twice, however the two ways interleave. What waits in the buffer, if anything does, goes
-- to the guest with Cowrie's next packet and before it.
pub relay-passed :
    (es : List Packet) (t : Transport) (p : ServerProtocol)
    → p.client_protocol ≡ some t
    → relay es p ≡ passed (cowrie_packets es) (guest_packets es) t p
unfolding client_data_received
relay-passed [] t p c = ap (λ u. record p { transport = u }) (sym (written-nil p.transport))
relay-passed (from_cowrie s ∷ es) t p c =
    ap (relay es) (received s t p c)
    ∙ relay-passed es (write_all (p.buffer ++ s ∷ []) t)
        (record p { client_protocol = some (write_all (p.buffer ++ s ∷ []) t); buffer = [] }) refl
    ∙ passed-after s (cowrie_packets es) (guest_packets es) t p
relay-passed (from_guest s ∷ es) t p c =
    relay-passed es t (record p { transport = write_all (s ∷ []) p.transport }) c
    ∙ passed-back s (cowrie_packets es) (guest_packets es) t p

lost_early :
    (p : ServerProtocol)
    → p.client_protocol ≡ none
    → server_connection_lost p ≡ (err attribute_error, p)
unfolding server_connection_lost
lost_early p c = ground arith

-- A packet that arrives before the guest is connected raises AttributeError and stays in the buffer; the
-- end of the connection raises it too.
pub early-attribute_error :
    (packet : Bytes) (p : ServerProtocol)
    → p.client_protocol ≡ none
    → (server_data_received packet p
        ≡ (err attribute_error, record p { buffer = p.buffer ++ packet ∷ [] }))
      × (server_connection_lost p ≡ (err attribute_error, p))
unfolding server_data_received send_data server_connection_lost
early-attribute_error packet p c = (simp c, lost_early p c)
