-- ===== src/Http/Server/Answers.antt =====
-- What a callback of the server leaves behind.
use knpnl.Prelude.{ℕ, suc, ◌≤◌, ◌<◌, ◌^◌, ◌≡◌, refl, ◌⊎◌, inl, inr, List, ℤ, arith}
use knpnl.Buffer.{FixedBuffer, used, capacity}
use knpnl.Buffer.Contents.{IsValid}
use knpnl.Http.Request.{
  HttpRequest, HttpCode, no_request, get_request, bad_request, no_resource, forbidden_request,
  file_request, internal_error, closed_connection, init,
}
use knpnl.Http.Process.{Turn, again, answer, throw, process_read}
use knpnl.Http.Process.Ends.{Kept, Finished, process_read-Finished}
use knpnl.Http.Response.{HttpResponse}
use knpnl.Http.Server.{
  Exchange, Callback, returned, raised, unfinished, on_message_callback, on_answer, parsed, grant,
  refuse,
}

-- What holds behind a callback: the read buffer is valid and of its size, the index is in it, and the write buffer and the connection are untouched unless `Send` was called once.
pub record Orderly (x y : Exchange) : Type 0 where
  pub valid : IsValid y.read_buffer
  pub same_size : capacity y.read_buffer ≡ capacity x.read_buffer
  pub index_in : y.request.check_index ≤ used y.read_buffer
  pub sent :
      ((y.sends ≡ x.sends) × (y.outgoing ≡ x.outgoing) × (y.alive ≡ x.alive))
      ⊎ (y.sends ≡ suc x.sends)

abbrev pub Ended : Exchange → Callback → Type 0
Ended x (returned y) = Orderly x y
Ended x (raised y) = Orderly x y × (y.sends ≡ x.sends)
Ended x unfinished = ⊥

sends_of :
    {x y : Exchange} {r : HttpRequest}
    → Kept x.read_buffer r y.read_buffer
    → (((y.sends ≡ x.sends) × (y.outgoing ≡ x.outgoing) × (y.alive ≡ x.alive))
        ⊎ (y.sends ≡ suc x.sends))
    → y.request.check_index ≤ used y.read_buffer
    → Orderly x y
sends_of k s i = record { valid = k.valid; same_size = k.same_size; index_in = i; sent = s }

module _ (serve : HttpRequest → HttpResponse → HttpResponse) (decimal : ℤ → List ℕ) where
  on_answer-Orderly :
      (code : HttpCode) (x : Exchange) (r : HttpRequest) (b : FixedBuffer)
      → Kept x.read_buffer r b
      → Orderly x (on_answer serve decimal code (record x { request = r; read_buffer = b }))
  unfolding on_answer grant init refuse
  on_answer-Orderly no_request x r b k = sends_of k (inl (refl, refl, refl)) k.index_in
  on_answer-Orderly bad_request x r b k = sends_of k (inr refl) k.index_in
  on_answer-Orderly get_request x r b k = sends_of k (inr refl) (omega arith)
  on_answer-Orderly no_resource x r b k = sends_of k (inr refl) k.index_in
  on_answer-Orderly forbidden_request x r b k = sends_of k (inr refl) k.index_in
  on_answer-Orderly file_request x r b k = sends_of k (inr refl) k.index_in
  on_answer-Orderly internal_error x r b k = sends_of k (inr refl) k.index_in
  on_answer-Orderly closed_connection x r b k = sends_of k (inr refl) k.index_in

  parsed-Ended :
      (x : Exchange) (t : Turn) → Finished x.read_buffer t → Ended x (parsed serve decimal x t)
  unfolding parsed
  parsed-Ended x (again r b) f = f
  parsed-Ended x (answer code r b) f = on_answer-Orderly code x r b f
  parsed-Ended x (throw r b) f = (sends_of f (inl (refl, refl, refl)) f.index_in, refl)

  -- The message callback ends on every valid read buffer smaller than 2^32 bytes whose index is
  -- within the unread bytes: it returns or passes on an exception, the buffer stays valid and of
  -- its size, and the write buffer and `mAlive` are as before unless `Send` was called, which
  -- happens once at most.
  pub on_message_callback-Ended :
      (x : Exchange)
      → IsValid x.read_buffer
      → capacity x.read_buffer < 2 ^ 32
      → x.request.check_index ≤ used x.read_buffer
      → Ended x (on_message_callback serve decimal x)
  unfolding on_message_callback
  on_message_callback-Ended x v small h =
      parsed-Ended x (process_read x.request x.read_buffer)
        (process_read-Finished x.request x.read_buffer v small h)
