-- ===== src/Net/Proto/Threads.antt =====
-- common/thread_buffer.h: thread_buffer_manager, which is to give each thread buffers of its own.
use hardware_server.Prelude.{
  ℕ, suc, ◌<◌, ◌≡◌, refl, List, [], ◌∷◌, ◌++◌, Option, none, some, length, if◌then◌else◌, ◌==◌,
  arith, All, false, subst, sym,
}

-- The loop of getThreadBuffer over the ids of the buffers, from the index `i` on: the index that is
-- found, and the id of the thread afterwards, as `thread_id = pit->_thread_id` assigns it.
unfoldable pub find_thread_buffer : ℕ → List ℕ → ℕ → Option ℕ × ℕ
find_thread_buffer thread_id [] i = (none, thread_id)
find_thread_buffer thread_id (id ∷ ids) i =
    let rest = find_thread_buffer id ids (suc i) in if id == 0 then rest else (some i, id)

-- getThreadBuffer: the ids of the buffers after the call, and the index of the one that it gives.
unfoldable pub get_thread_packet_buffer : List ℕ → ℕ → List ℕ × ℕ
unfolding find_thread_buffer
get_thread_packet_buffer ids thread_id =
    let (found, id) = find_thread_buffer thread_id ids 0 in
    elim found [ none ↦ (ids ++ id ∷ [], length ids) | some i ↦ (ids, i) ]

-- releaseThreadBuffer, which takes out a buffer by the same test.
unfoldable pub release_thread_buffer : List ℕ → List ℕ
release_thread_buffer [] = []
release_thread_buffer (id ∷ ids) =
    let rest = release_thread_buffer ids in if id == 0 then id ∷ rest else ids

-- The buffers that the threads get, one request after the other.
unfoldable pub thread_requests : List ℕ → List ℕ → List ℕ
unfolding get_thread_packet_buffer
thread_requests ids [] = []
thread_requests ids (t ∷ ts) =
    let (ids', i) = get_thread_packet_buffer ids t in i ∷ thread_requests ids' ts

later_request :
    (first t : ℕ) → 0 < first → get_thread_packet_buffer (first ∷ []) t ≡ (first ∷ [], 0)
unfolding get_thread_packet_buffer find_thread_buffer
later_request first t h =
    let used : (first == 0) ≡ false = ground arith in
    rw (used, get_thread_packet_buffer, find_thread_buffer) refl

later_requests :
    (first : ℕ) (ts : List ℕ) → 0 < first → All (λ i. i ≡ 0) (thread_requests (first ∷ []) ts)
unfolding thread_requests
later_requests first [] h = tt
later_requests first (t ∷ ts) h =
    subst (λ g. All (λ i. i ≡ 0) (g.1 ∷ thread_requests g.0 ts)) (sym (later_request first t h))
      (refl, later_requests first ts h)

-- All threads are given one and the same buffer, the first one, whatever their ids are, except 0.
pub one_thread_buffer :
    (ts : List ℕ) → All (λ t. 0 < t) ts → All (λ i. i ≡ 0) (thread_requests [] ts)
unfolding thread_requests get_thread_packet_buffer find_thread_buffer
one_thread_buffer [] h = tt
one_thread_buffer (t ∷ ts) h = (refl, later_requests t ts h.0)
