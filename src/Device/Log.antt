-- ===== src/Device/Log.antt =====
-- What a device has sent, and what becomes of the texts that arrive (core/mcp/mcp_server.c).
use mlink_device.Prelude.{◌≡◌, refl, sym, ap, ◌∙◌, Option, List, [], ◌∷◌, ◌++◌, Bool, true, false}
use mathlib.Core.List.{append_assoc, append-nil}
use mlink_device.Prelude.Bytes.{Bytes}
use mlink_device.Memory.{Heap, malloc}
use mlink_device.Json.{Env}
use mlink_device.Mcp.Server.{Server, Sent}
use mlink_device.Mcp.Protocol.{parse_message}
use mlink_device.Mcp.Session.{send_notification_message}

-- Why something was sent: in reply to a text, by the server and the heap of that time, or as a
-- notification.
pub data Spoken : Type 0 where
  reply : Server → Bytes → Heap → Spoken
  notice : Server → Option Bytes → Option Bytes → Option Bytes → Spoken

abbrev pub words : Env → Spoken → List Sent
words e (reply s text h) = (parse_message e s text h).0
words e (notice s level logger text) = send_notification_message e s level logger text

abbrev pub all_words : Env → List Spoken → List Sent
all_words e [] = []
all_words e (spoken ∷ log) = words e spoken ++ all_words e log

-- The texts that were replied to.
abbrev pub answered : List Spoken → List Bytes
answered [] = []
answered (reply s text h ∷ log) = text ∷ answered log
answered (notice s level logger text ∷ log) = answered log

pub all_words-append :
    (e : Env) (log : List Spoken) (spoken : Spoken)
    → all_words e (log ++ spoken ∷ []) ≡ all_words e log ++ words e spoken
all_words-append e [] spoken = append-nil (words e spoken)
all_words-append e (first ∷ log) spoken =
    ap (◌++◌ (words e first)) (all_words-append e log spoken)
    ∙ sym (append_assoc (words e first) (all_words e log) (words e spoken))

pub answered-append :
    (log : List Spoken) (s : Server) (text : Bytes) (h : Heap)
    → answered (log ++ reply s text h ∷ []) ≡ answered log ++ text ∷ []
answered-append [] s text h = refl
answered-append (reply s' text' h' ∷ log) s text h = ap (◌∷◌ text') (answered-append log s text h)
answered-append (notice s' l g t ∷ log) s text h = answered-append log s text h

pub answered-notice :
    (log : List Spoken) (s : Server) (level logger text : Option Bytes)
    → answered (log ++ notice s level logger text ∷ []) ≡ answered log
answered-notice [] s level logger text = refl
answered-notice (reply s' text' h' ∷ log) s level logger text =
    ap (◌∷◌ text') (answered-notice log s level logger text)
answered-notice (notice s' l g t ∷ log) s level logger text =
    answered-notice log s level logger text

-- What the allocator makes of a text that arrives: it is lost, where its copy is refused; answered in
-- the call, behind the requests so far, where its task or its node is refused; else queued.
pub data Fate : Type 0 where
  is_lost : Fate
  at_once : Heap → Fate
  is_queued : Fate

-- The requests for a node, for a task and a node, and for all three.
abbrev pub node_fate : Bool × Heap → Fate
node_fate (false, h) = at_once h
node_fate (true, h) = is_queued

abbrev pub task_fate : Bool × Heap → Fate
task_fate (false, h) = at_once h
task_fate (true, h) = node_fate (malloc h)

abbrev pub copy_fate : Bool × Heap → Fate
copy_fate (false, h) = is_lost
copy_fate (true, h) = task_fate (malloc h)

abbrev pub fate : Heap → Fate
fate h = copy_fate (malloc h)

-- What each of these adds to the three lists.
abbrev pub said_of : Server → Bytes → Fate → List Spoken
said_of s text (at_once h) = reply s text h ∷ []
said_of s text is_lost = []
said_of s text is_queued = []

abbrev pub lost_of : Bytes → Fate → List Bytes
lost_of text is_lost = text ∷ []
lost_of text (at_once h) = []
lost_of text is_queued = []

abbrev pub direct_of : Bytes → Fate → List Bytes
direct_of text (at_once h) = text ∷ []
direct_of text is_lost = []
direct_of text is_queued = []

-- Each text that arrives is lost, answered in the call, or accepted by the worker; each of the
-- three keeps the order.
pub data Split : List Bytes → List Bytes → List Bytes → List Bytes → Type 0 where
  nothing : Split [] [] [] []
  drop :
      {arrived lost direct accepted : List Bytes} (text : Bytes)
      → Split arrived lost direct accepted
      → Split (arrived ++ text ∷ []) (lost ++ text ∷ []) direct accepted
  reply_now :
      {arrived lost direct accepted : List Bytes} (text : Bytes)
      → Split arrived lost direct accepted
      → Split (arrived ++ text ∷ []) lost (direct ++ text ∷ []) accepted
  accept :
      {arrived lost direct accepted : List Bytes} (text : Bytes)
      → Split arrived lost direct accepted
      → Split (arrived ++ text ∷ []) lost direct (accepted ++ text ∷ [])

-- Two lists in one, each in its order.
pub data Merge : List Bytes → List Bytes → List Bytes → Type 0 where
  both_empty : Merge [] [] []
  on_left :
      {all left right : List Bytes} (text : Bytes)
      → Merge all left right
      → Merge (all ++ text ∷ []) (left ++ text ∷ []) right
  on_right :
      {all left right : List Bytes} (text : Bytes)
      → Merge all left right
      → Merge (all ++ text ∷ []) left (right ++ text ∷ [])

not_empty : {A : Type 0} (xs : List A) (x : A) → ¬ (xs ++ x ∷ [] ≡ [])
not_empty [] x e = cc e
not_empty (y ∷ xs) x e = cc e

pub Split-accepted :
    {arrived lost direct accepted : List Bytes}
    → Split arrived lost direct accepted
    → lost ≡ []
    → direct ≡ []
    → accepted ≡ arrived
Split-accepted nothing l n = refl
Split-accepted (drop {lost = lost} text p) l n = absurd (not_empty lost text l)
Split-accepted (reply_now {direct = direct} text p) l n = absurd (not_empty direct text n)
Split-accepted (accept text p) l n = ap (λ ts. ts ++ text ∷ []) (Split-accepted p l n)

pub Merge-right : {all left right : List Bytes} → Merge all left right → left ≡ [] → all ≡ right
Merge-right both_empty l = refl
Merge-right (on_left {left = left} text m) l = absurd (not_empty left text l)
Merge-right (on_right text m) l = ap (λ ts. ts ++ text ∷ []) (Merge-right m l)
