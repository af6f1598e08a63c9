-- ===== src/Audio/Ogg/Failure.antt =====
-- internal/audio/ogg_writer.go: a packet that the destination does not take as a whole.
use mathlib.Core.List.{append_assoc}
use tele_portal.Audio.Ogg.{
  OggWriter, finish_page, put, put_all, sealed_header, write_packet, write_page,
}
use tele_portal.Audio.Ogg.Pages.{advanced}
use tele_portal.Common.{
  List, Option, Option-cases, [], ap, drop, false, inl, inr, refl, sym, take, take-append-drop,
  true, ℕ, ◌++◌, ◌+◌, ◌∙◌, ◌∷◌, ◌≡◌, ◌⊎◌,
}
use tele_portal.Common.Slices.{IsBeginning}
use tele_portal.Common.Words.{u32}

module _ (checksum : List ℕ → ℕ) (stop_at : List ℕ → List ℕ → Option ℕ) where
  put-cases :
      (out p : List ℕ)
      → (put checksum stop_at out p ≡ (out ++ p, true))
        ⊎ ((q : List ℕ) × IsBeginning q p × (put checksum stop_at out p ≡ (out ++ q, false)))
  unfolding put
  put-cases out p = elim (Option-cases (stop_at out p)) [
    | inl e ↦ inl (rw e refl)
    | inr (n, e) ↦ inr (take n p, (drop n p, take-append-drop n p), rw e refl)
  ]

  put_page-cases :
      (w : OggWriter) (header p : List ℕ)
      → (put_all checksum stop_at (header ∷ p ∷ []) (w.output, true)
          ≡ (w.output ++ (header ++ p), true))
        ⊎ ((q : List ℕ) × IsBeginning q (header ++ p)
            × (put_all checksum stop_at (header ∷ p ∷ []) (w.output, true)
                ≡ (w.output ++ q, false)))
  unfolding put_all
  put_page-cases w header p =
      let second = put_all checksum stop_at (p ∷ []) in
      elim (put-cases w.output header) [
        | inl e ↦ elim (put-cases (w.output ++ header) p) [
          | inl f ↦
              inl (
                ap second e ∙ f ∙ ap (λ (xs : List ℕ). (xs, true)) (append_assoc w.output header p))
          | inr (q, (rest, g), f) ↦ inr (
            header ++ q,
            (rest, append_assoc header q rest ∙ ap (◌++◌ header) g),
            ap second e ∙ f ∙ ap (λ (xs : List ℕ). (xs, false)) (append_assoc w.output header q),
          )
        ]
        | inr (q, (rest, g), f) ↦ inr (
          q,
          (rest ++ p, sym (append_assoc q rest p) ∙ ap (λ (xs : List ℕ). xs ++ p) g),
          ap second f,
        )
      ]

  -- A page of one packet, whatever its flags.
  pub write_page-output :
      (flags p : List ℕ) (w : OggWriter)
      → let page = sealed_header checksum stop_at w flags (p ∷ []) ++ p in
        (write_page checksum stop_at flags (p ∷ []) w ≡ (
          record w { output = w.output ++ page; page_sequence = u32 (w.page_sequence + 1) },
          true,
        ))
        ⊎ ((q : List ℕ) × IsBeginning q page
            × (write_page checksum stop_at flags (p ∷ []) w
                ≡ (record w { output = w.output ++ q }, false)))
  unfolding write_page
  write_page-output flags p w =
      let finish = finish_page checksum stop_at w in
      elim (put_page-cases w (sealed_header checksum stop_at w flags (p ∷ [])) p) [
        | inl e ↦ inl (ap finish e)
        | inr (q, b, e) ↦ inr (q, b, ap finish e)
      ]

  -- `WritePacket` either reports no error, and the output has the header of the page and the packet
  -- behind what it had and the page number is counted up; or it reports an error, and the output
  -- has a beginning of the page behind what it had, and the page number is not used up. The granule
  -- position and the count of packets go up in both cases.
  pub write_packet-output :
      (p : List ℕ) (samples : ℕ) (w : OggWriter)
      → let v = advanced w samples in
        let page = sealed_header checksum stop_at v [] (p ∷ []) ++ p in
        (write_packet checksum stop_at p samples w ≡ (
          record v { output = w.output ++ page; page_sequence = u32 (w.page_sequence + 1) },
          true,
        ))
        ⊎ ((q : List ℕ) × IsBeginning q page
            × (write_packet checksum stop_at p samples w
                ≡ (record v { output = w.output ++ q }, false)))
  unfolding write_packet advanced
  write_packet-output p samples w = write_page-output [] p (advanced w samples)
