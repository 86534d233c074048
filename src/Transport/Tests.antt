-- ===== src/Transport/Tests.antt =====
-- The theorems on core/transport at a table with one entry and a connected socket.
use mlink_device.Prelude.{ℕ, ◌≡◌, refl, true, none, some, List, [], ◌∷◌, arith}
use mlink_device.Prelude.Bytes.{bytes}
use mlink_device.Transport.{tcp, unix, Entry, find_ops}
use mlink_device.Transport.Table.{IsTable, Managed, table_cases}
use mlink_device.Memory.{Heap}
use mlink_device.Transport.Unix.Same.{Agree, unix-Agree}
use mlink_device.Transport.Tcp.{got, hung_up, TcpState, SendAnswer, sent, interrupted, write}
use mlink_device.Transport.Tcp.Start.{up}
use mlink_device.Transport.Tcp.{recv_thread, close}
use mlink_device.Transport.Tcp.Listen.{chunks, ends, recv_thread-chunks}
use mlink_device.Transport.Tcp.Write.{Wrote, write-Wrote, write-delivers}

abbrev table : List (Entry ℕ)
table = record { type = tcp; ops = 5 } ∷ []

table-IsTable : IsTable table
unfolding find_ops
table-IsTable = record { bounded = omega arith; distinct = (refl, tt) }

table_cases_example : Managed table unix 7
table_cases_example = table_cases table unix 7 table-IsTable

abbrev connected : TcpState ℕ
connected = up 3 none

abbrev answers : List SendAnswer
answers = sent 1 ∷ interrupted ∷ sent 1 ∷ []

write-Wrote_example :
    Wrote (some connected) (bytes "hi") (write answers (some connected) (some (bytes "hi")))
write-Wrote_example = write-Wrote answers (some connected) (bytes "hi")

write-delivers_example :
    write answers (some connected) (some (bytes "hi"))
    ≡ record { answer = some true; wire = bytes "hi"; priv = some connected }
write-delivers_example =
    write-delivers answers connected (bytes "hi") refl (λ e. ground arith) tt (omega arith)

abbrev heap : Heap
heap = record { grant = λ n. true; next = 0; allocs = 0; frees = 0 }

unix-Agree_example :
    Agree (some 3) true answers (got (bytes "hi") ∷ hung_up ∷ []) (some connected) heap
unix-Agree_example =
    unix-Agree (some 3) true answers (got (bytes "hi") ∷ hung_up ∷ []) (some connected) heap

recv_thread-chunks_example :
    recv_thread {C = ℕ} (got (bytes "hi") ∷ hung_up ∷ []) (up 3 (some 9)) ≡ record {
      calls = chunks 9 (got (bytes "hi") ∷ hung_up ∷ []);
      ended = ends {C = ℕ} (got (bytes "hi") ∷ hung_up ∷ []);
      state = close (up 3 (some 9));
    }
recv_thread-chunks_example = recv_thread-chunks (got (bytes "hi") ∷ hung_up ∷ []) 3 9 tt
