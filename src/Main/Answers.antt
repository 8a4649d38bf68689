-- ===== src/Main/Answers.antt =====
-- To which client the answers of the statistics socket go.
use map.Common.Maps.{modify}
use map.Common.Text.{Text, codes, text_eq, c_string, decimal}
use map.Common.{
  ℕ, ◌≡◌, refl, ap, Bool, true, false, none, some, List, [], ◌∷◌, ◌++◌, Bool-cases, inl, inr, ◌==◌,
  take, length,
}
use map.Main.Socket.{
  Peers, Written, Server, safe_write, accept_client, run_command, serve, write_to, info, info46,
  info66, read_num, Iterator, forget,
}
use map.Mapping.Direction.{sixtosix_gtoi}
use map.Mapping.{Tables}
use map.Memory.{Bytes, Endian}
use map.Packet.SixToFour.{analyze6, is_supported}
use map.Stat.{Chunk, Stat, update, update_gtoi, is_short}

-- A descriptor that epoll does not watch.
abbrev pub IsUnwatched : ℕ → List ℕ → Type 0
IsUnwatched fd [] = Unit
IsUnwatched fd (x ∷ xs) = ((x == fd) ≡ false) × IsUnwatched fd xs

forget-IsUnwatched : (fd : ℕ) (xs : List ℕ) → IsUnwatched fd (forget fd xs)
unfolding forget
forget-IsUnwatched fd [] = tt
forget-IsUnwatched fd (x ∷ xs) = elim (Bool-cases (x == fd)) [
  | inl e ↦ rw e (forget-IsUnwatched fd xs)
  | inr e ↦ rw e (e, forget-IsUnwatched fd xs)
]

-- A client that takes what is written to it, and acknowledges the size.
pub record TakesAnswers (p : Peers) (fd : ℕ) : Type 0 where
  pub size_taken : p.takes_size fd ≡ true
  pub size_acked : text_eq (c_string (take 10 (p.ack fd))) (codes "ok") ≡ true
  pub msg_taken : p.takes_msg fd ≡ true

-- The answer: the length of the text in decimal, then the text.
abbrev pub answer_to : ℕ → Text → Written
answer_to fd msg = (fd, decimal (length msg)) ∷ (fd, msg) ∷ []

safe_write-whole :
    (p : Peers) (fd : ℕ) (msg : Text)
    → TakesAnswers p fd
    → safe_write p fd msg ≡ (true, answer_to fd msg)
unfolding safe_write
safe_write-whole p fd msg h = rw (h.size_taken, h.size_acked, h.msg_taken) refl

-- A command as a client sends it, with the 0 at its end.
abbrev pub sent : Text → Bytes
sent command = command ++ (0 ∷ [])

-- If a client asks for the counters by show after another one was accepted that takes what is
-- written to it, their text goes to that other one, its length before it, and nothing is written to
-- the client that asked, which is no longer watched; the counters stay.
pub serve-show :
    (p : Peers) (asking other : ℕ) (added1 added2 : Bool) (v : Server)
    → TakesAnswers p other
    → (v' : Server) × (serve p asking
          (some (sent (codes "show")))
          (accept_client added2 other (accept_client added1 asking v))
        ≡ some (v', answer_to other (p.json v.stat)))
      × IsUnwatched asking v'.watched
      × (v'.stat ≡ v.stat)
      × (v'.stat_fd ≡ some other)
unfolding serve run_command accept_client write_to c_string text_eq
serve-show p asking other added1 added2 v h =
    let last = accept_client added2 other (accept_client added1 asking v) in
    let left : Server = record last { watched = forget asking last.watched } in
    (
      left,
      ap (λ (r : Bool × Written). some (left, r.1)) (safe_write-whole p other (p.json v.stat) h),
      forget-IsUnwatched asking last.watched,
      refl,
      refl,
    )

-- What is counted of a packet between IPv6 hosts makes an entry.
modify-ne :
    {K V : Type 0} (lt : K → K → Bool) (k : K) (d : V) (f : V → V) (m : List (K × V))
    → (e : K × V) × (rest : List (K × V)) × (modify lt k d f m ≡ e ∷ rest)
unfolding modify
modify-ne lt k d f [] = (_, _, refl)
modify-ne lt k d f ((j, v) ∷ m) = elim (Bool-cases (lt k j)) [
  | inl e ↦ rw e (_, _, refl)
  | inr e ↦
      rw e (elim (Bool-cases (lt j k)) [ inl l ↦ rw l (_, _, refl) | inr l ↦ rw l (_, _, refl) ])
]

-- The first loop leaves its iterator at the end.
info46-ends : (p : Peers) (it : Iterator) (ss : Text) → (info46 p it ss).1 ≡ []
unfolding info46
info46-ends p [] ss = refl
info46-ends p ((addr, chunk) ∷ it) ss = info46-ends p it _

info-undefined :
    (p : Peers) (s : Stat) (x : Bytes × Chunk) (rest : List (Bytes × Chunk))
    → s.stat66 ≡ x ∷ rest
    → info p s ≡ none
unfolding info info66 read_num
info-undefined p s x rest h = rw (h, info46-ends p s.stat46 _) refl

run_command-info :
    (p : Peers) (fd : ℕ) (v : Server)
    → info p v.stat ≡ none
    → run_command p fd (codes "info") v ≡ none
unfolding run_command text_eq
run_command-info p fd v h = rw (h, run_command) refl

serve-info_undefined :
    (p : Peers) (fd : ℕ) (v : Server)
    → info p v.stat ≡ none
    → serve p fd (some (sent (codes "info"))) v ≡ none
unfolding serve c_string
serve-info_undefined p fd v h = rw (run_command-info p fd v h, serve) refl

update_gtoi-stat66 :
    (e : Endian) (pkt : Bytes) (len : ℕ) (s : Stat)
    → is_supported (analyze6 pkt).next_header ≡ true
    → is_short pkt len ≡ false
    → (x : Bytes × Chunk) × (rest : List (Bytes × Chunk)) × ((update_gtoi e pkt len s).stat66
        ≡ x ∷ rest)
unfolding update_gtoi
update_gtoi-stat66 e pkt len s h k = rw (h, k) (modify-ne _ _ _ _ s.stat66)

-- Once a whole packet of TCP, UDP or ICMPv6 to a global address has been counted, the command info
-- is undefined: the loop over the IPv6 entries reads the number of its first through the iterator of
-- the loop over the IPv4 entries, which that loop left at its end.
pub serve-info :
    (p : Peers) (fd : ℕ) (e : Endian) (t : Tables) (pkt : Bytes) (len : ℕ) (v : Server)
    → is_supported (analyze6 pkt).next_header ≡ true
    → is_short pkt len ≡ false
    → serve p fd
        (some (sent (codes "info")))
        (record v { stat = update sixtosix_gtoi e t pkt len v.stat })
      ≡ none
unfolding update
serve-info p fd e t pkt len v h k =
    let (x, rest, made) = update_gtoi-stat66 e pkt len v.stat h k in
    serve-info_undefined p fd (record v { stat = update_gtoi e pkt len v.stat })
      (info-undefined p (update_gtoi e pkt len v.stat) x rest made)
