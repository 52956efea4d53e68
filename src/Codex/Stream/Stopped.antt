-- ===== src/Codex/Stream/Stopped.antt =====
-- The end of a stream (internal/codex/stream.go).
use clan.Prelude.{
  ℕ, suc, ◌+◌, ◌-◌, ◌≡◌, refl, ap, ◌∙◌, true, Option, List, [], ◌∷◌, arith, ltb, if_elim, length,
  replicate, Text,
}
use clan.Errors.{Failure, Error}
use clan.Codex.Json.{Json}
use clan.Codex.Parse.{max_payload}
use clan.Codex.Stream.Cases.{read_case}
use clan.Codex.Stream.{
  Stream, Reading, Delivered, delivered, stopped, finish, final_error, stop, item_at, size_of,
  stored_item, next, results,
}

-- An error is the stream's own, which has ended.
record IsStopped (x : Stream × Delivered) : Type 0 where
  stays : (e : Error) → x.1 ≡ stopped e → (x.0.ended ≡ true) × (final_error x.0 ≡ e)

stop-IsStopped : (s : Stream) (f : Failure) → IsStopped (stop s f)
unfolding finish
stop-IsStopped s f = record { stays = λ e h. (refl, ground (arith, h)) }

delivered-IsStopped : (s : Stream) (j : Json) → IsStopped (s, delivered j)
delivered-IsStopped s j = record { stays = λ e h. absurd (ground (arith, h)) }

module _ (size : Json → ℕ) (detail_code : Option Json → Text) where
  stored_item-IsStopped :
      (s : Stream) (raw : Json) (i : ℕ) (item : Json)
      → IsStopped (stored_item size detail_code s raw i item)
  stored_item-IsStopped s raw i item =
      if_elim IsStopped
        (ltb max_payload (s.item_bytes + size item - size_of size detail_code (item_at i s.items)))
        _ _ (λ h. stop-IsStopped _ _) (λ h. delivered-IsStopped _ raw)

  next-IsStopped : (s : Stream) (r : Reading) → IsStopped (next size detail_code s r)
  unfolding next
  next-IsStopped s r =
      if_elim IsStopped s.ended _ _ (λ h. record { stays = λ e g. (h, ground (arith, g)) })
        (λ h.
          read_case size detail_code (λ s. Unit) IsStopped stop-IsStopped
            (λ s raw i item g. stored_item-IsStopped s raw i item)
            (λ s fields status t. delivered-IsStopped _ _)
            (λ s fields raw kind. delivered-IsStopped _ _) (λ s j g. delivered-IsStopped s j)
            (λ s u g. tt) s r tt)

  results-ended :
      (s : Stream) (rs : List Reading)
      → s.ended ≡ true
      → results size detail_code s rs ≡ replicate (length rs) (stopped (final_error s))
  unfolding results next
  results-ended s [] h = refl
  results-ended s (r ∷ rs) h =
      if_elim
        (λ (x : Stream × Delivered).
          (x.1 ∷ results size detail_code x.0 rs)
          ≡ replicate (suc (length rs)) (stopped (final_error s)))
        s.ended _ _ (λ g. ap (λ l. stopped (final_error s) ∷ l) (results-ended s rs h))
        (λ g. absurd (ground (arith, g, h)))

  -- Once Next has returned an error, every later Next returns the same error and no event, whatever the provider sends.
  pub results-next :
      (s : Stream) (r : Reading) (rs : List Reading) (e : Error)
      → (next size detail_code s r).1 ≡ stopped e
      → results size detail_code (next size detail_code s r).0 rs
        ≡ replicate (length rs) (stopped e)
  results-next s r rs e h =
      let (ended, same) = (next-IsStopped s r).stays e h in
      results-ended (next size detail_code s r).0 rs ended
      ∙ ap (λ x. replicate (length rs) (stopped x)) same
