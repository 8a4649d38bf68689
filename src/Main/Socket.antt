-- ===== src/Main/Socket.antt =====
-- map646.cpp and stat.cpp: the statistics socket. Its clients connect, send one command and are
-- closed; the answers go through `stat::safe_write`.
use map.Common.Text.{Text, codes, text_eq, c_string, decimal}
use map.Common.{
  ℕ, Bool, true, false, not, Option, none, some, List, [], ◌∷◌, ◌++◌, length, take, if◌then◌else◌,
  ◌==◌, ◌>>=◌,
}
use map.Memory.{Bytes}
use map.Stat.{Stat, Chunk, total_num, flush}

-- What a client and the libraries answer: whether the two calls of `write` work and what `read`
-- puts in the buffer between them, by the descriptor; the texts that json-c and inet_ntop give, that
-- of the time of the last flush, and `time`.
pub record Peers : Type 0 where
  pub takes_size : ℕ → Bool
  pub ack : ℕ → Bytes
  pub takes_msg : ℕ → Bool
  pub json : Stat → Text
  pub ntop4 : Bytes → Text
  pub ntop6 : Bytes → Text
  pub time_text : ℕ → Text
  pub now : ℕ

-- A call of `write` that works: the descriptor and the bytes.
abbrev pub Written : Type 0
Written = List (ℕ × Text)

-- `stat::safe_write`: whether it returns 0, and what is written. The acknowledgement is read into 10
-- bytes that are 0 before.
unfoldable pub safe_write : Peers → ℕ → Text → Bool × Written
safe_write p fd msg =
    if not (p.takes_size fd)
    then (false, [])
    else if not (text_eq (c_string (take 10 (p.ack fd))) (codes "ok"))
    then (false, (fd, decimal (length msg)) ∷ [])
    else if not (p.takes_msg fd)
    then (false, (fd, decimal (length msg)) ∷ [])
    else (true, (fd, decimal (length msg)) ∷ (fd, msg) ∷ [])

-- An iterator of `stat46`: the entries from where it stands, [] being the end.
abbrev pub Iterator : Type 0
Iterator = List (Bytes × Chunk)

-- `it->second.total_num()`; `none` is undefined behaviour, a read through an iterator at the end.
unfoldable pub read_num : Iterator → Option ℕ
read_num [] = none
read_num ((addr, chunk) ∷ it) = some (total_num chunk)

-- A line of `stat::write_info`.
unfoldable pub info_line : Text → ℕ → Text
info_line addr num =
    codes "service addr: " ++ (addr ++ (codes ", num: " ++ (decimal num ++ (10 ∷ []))))

-- The loop over `stat46`, from the text so far: the text, and where its iterator stands then.
unfoldable pub info46 : Peers → Iterator → Text → Text × Iterator
info46 p [] ss = (ss, [])
info46 p ((addr, chunk) ∷ it) ss = info46 p it (ss ++ info_line (p.ntop4 addr) (total_num chunk))

-- The loop over `stat66`: the address is that of `it6`, the number that of `it`, which stays.
unfoldable pub info66 : Peers → Iterator → List (Bytes × Chunk) → Text → Option Text
info66 p it [] ss = some ss
info66 p it ((addr, chunk) ∷ it6) ss = do
  num ← read_num it
  info66 p it it6 (ss ++ info_line (p.ntop6 addr) num)

abbrev pub size : {A : Type 0} → List A → ℕ
size m = length m

-- The text of `stat::write_info`.
unfoldable pub info : Peers → Stat → Option Text
info p s =
    let head =
      codes "lastupdate: "
      ++ (p.time_text s.last_flush
          ++ (10 ∷ (codes "stat46_size: " ++ (decimal (size s.stat46) ++ (10 ∷ []))))) in
    let (ss, it) = info46 p s.stat46 head in
    info66 p it s.stat66 (ss ++ (codes "stat66_size: " ++ (decimal (size s.stat66) ++ (10 ∷ []))))

-- What the loop keeps for the statistics: the counters, `stat_enable`, `stat_fd`, `none` being -1,
-- and the descriptors that epoll watches.
pub record Server : Type 0 where
  pub stat : Stat
  pub stat_enable : Bool
  pub stat_fd : Option ℕ
  pub watched : List ℕ

-- A connection that `accept` takes: `stat_fd` is overwritten. `added` says whether `epoll_ctl` works.
unfoldable pub accept_client : Bool → ℕ → Server → Server
accept_client added fd s = record s {
  stat_fd = some fd;
  watched = if added then fd ∷ s.watched else s.watched;
}

-- A write to `stat_fd`; to -1 it fails.
unfoldable pub write_to : Peers → Option ℕ → Text → Written
write_to p none msg = []
write_to p (some fd) msg = (safe_write p fd msg).1

abbrev pub bool_text : Bool → Text
bool_text true = codes "true"
bool_text false = codes "false"

abbrev pub commands : Text
commands = codes "show, info, time, flush, toggle, help, stat"

-- The chain of `strcmp`, for a command that came in on `fd`; `none` is undefined behaviour.
unfoldable pub run_command : Peers → ℕ → Text → Server → Option (Server × Written)
run_command p fd command s =
    if text_eq command (codes "show")
    then some (s, write_to p s.stat_fd (p.json s.stat))
    else if text_eq command (codes "info")
    then elim (info p s.stat) [ none ↦ none | some text ↦ some (s, write_to p s.stat_fd text) ]
    else if text_eq command (codes "time")
    then some (s, write_to p s.stat_fd (p.time_text s.stat.last_flush))
    else if text_eq command (codes "flush")
    then some (record s { stat = flush p.now s.stat }, (safe_write p fd (codes "flushed")).1)
    else if text_eq command (codes "toggle")
    then some (
      record s { stat_enable = not s.stat_enable },
      (safe_write p fd (bool_text (not s.stat_enable))).1,
    )
    else if text_eq command (codes "stat")
    then some (s, (safe_write p fd (bool_text s.stat_enable)).1)
    else if text_eq command (codes "help")
    then some (s, (safe_write p fd commands).1)
    else some (s, (safe_write p fd (codes "unknown commands: " ++ commands)).1)

-- A descriptor is no longer watched.
unfoldable pub forget : ℕ → List ℕ → List ℕ
forget fd [] = []
forget fd (x ∷ xs) = if x == fd then forget fd xs else x ∷ forget fd xs

-- The end of the branch: the descriptor is closed.
abbrev pub close_client : ℕ → Server × Written → Server × Written
close_client fd (s, w) = (record s { watched = forget fd s.watched }, w)

-- The branch of the loop for a client: `received` is what `read` gives, `none` for -1.
unfoldable pub serve : Peers → ℕ → Option Bytes → Server → Option (Server × Written)
serve p fd none s = some (close_client fd (s, []))
serve p fd (some []) s = some (close_client fd (s, []))
serve p fd (some (c ∷ cs)) s = elim (run_command p fd (c_string (take 10 (c ∷ cs))) s) [
  | none ↦ none
  | some r ↦ some (close_client fd r)
]
