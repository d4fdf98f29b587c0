-- ===== src/Normalizer/Segments.antt =====
-- The segments of a normal path.
use lin_clean_be_fastapi.Prelude.{
  ◌≡◌, refl, Bool, true, false, ◌&&◌, not, List, [], ◌∷◌, Text, text, text_eq, is_empty,
  starts_with, All, All-reverse_aux, All-map, if◌then◌else◌, inl, inr, Bool-cases,
}
use lin_clean_be_fastapi.Prelude.Split.{split_on, join, IsFree, split_on-IsFree, split_on-join}
use lin_clean_be_fastapi.Normalizer.Paths.{
  resolve_segment, resolve_segments, root_segments, resolved_segments, resolve_dot_segments,
  or_slash, normalize_path, collapse_slashes, normalize_pct_encoding,
}

-- A segment that stays where it is.
abbrev pub IsPlain : Text → Type 0
IsPlain segment = (text_eq segment (text ".") ≡ false) × (text_eq segment (text "..") ≡ false)

abbrev IsSegment : Text → Type 0
IsSegment segment = IsFree b'/' segment × IsPlain segment

resolve_segment-IsSegment :
    (resolved : List Text) (segment : Text)
    → IsFree b'/' segment
    → All IsSegment resolved
    → All IsSegment (resolve_segment resolved segment)
unfolding resolve_segment
resolve_segment-IsSegment resolved segment f h = elim (Bool-cases (text_eq segment (text "."))) [
  | inl e ↦ rw (e, resolve_segment) h
  | inr e ↦ elim (Bool-cases (text_eq segment (text ".."))) [
    | inl g ↦ rw (e, g, resolve_segment) (popped resolved h)
    | inr g ↦ rw (e, g, resolve_segment) ((f, (e, g)), h)
  ]
]
  where
    popped :
        (resolved : List Text)
        → All IsSegment resolved
        → All IsSegment (elim resolved [
          | [] ↦ []
          | (last ∷ rest) ↦ if is_empty last then last ∷ rest else rest
        ])
    popped [] h = tt
    popped (last ∷ rest) h = elim (Bool-cases (is_empty last)) [
      | inl e ↦ rw e h
      | inr e ↦ rw e (h.1)
    ]

resolve_segments-IsSegment :
    (segments resolved : List Text)
    → All (IsFree b'/') segments
    → All IsSegment resolved
    → All IsSegment (resolve_segments resolved segments)
unfolding resolve_segments
resolve_segments-IsSegment [] resolved f h = All-reverse_aux IsSegment resolved [] h tt
resolve_segments-IsSegment (segment ∷ segments) resolved (f, g) h =
    resolve_segments-IsSegment segments (resolve_segment resolved segment) g
      (resolve_segment-IsSegment resolved segment f h)

root_segments-IsSegment :
    (rooted : Bool) (segments : List Text)
    → All IsSegment segments
    → All IsSegment (root_segments rooted segments)
unfolding root_segments text text_eq
root_segments-IsSegment true [] h = ((refl, (refl, refl)), tt)
root_segments-IsSegment false [] h = tt
root_segments-IsSegment rooted (segment ∷ segments) h =
    elim (Bool-cases (rooted && not (is_empty segment))) [
      | inl e ↦ rw (e, root_segments) ((refl, (refl, refl)), h)
      | inr e ↦ rw (e, root_segments) h
    ]

resolved_segments-IsSegment : (path : Text) → All IsSegment (resolved_segments path)
unfolding resolved_segments
resolved_segments-IsSegment path =
    root_segments-IsSegment (starts_with (b'/' ∷ []) path) _
      (resolve_segments-IsSegment (split_on b'/' path) [] (split_on-IsFree b'/' path) tt)

or_slash-IsPlain :
    (s : Text) → All IsPlain (split_on b'/' s) → All IsPlain (split_on b'/' (or_slash s))
unfolding or_slash split_on text text_eq
or_slash-IsPlain [] h = ((refl, refl), ((refl, refl), tt))
or_slash-IsPlain (c ∷ s) h = h

-- Joining the segments and splitting the path again gives plain segments.
split_on-IsPlain :
    (segments : List Text)
    → All IsSegment segments
    → All IsPlain (split_on b'/' (join b'/' segments))
unfolding join split_on text text_eq
split_on-IsPlain [] h = ((refl, refl), tt)
split_on-IsPlain (segment ∷ segments) h =
    let free : All (IsFree b'/') (segment ∷ segments) =
      All-map {P = IsSegment} (λ s h. h.0) (segment ∷ segments) h in
    rw (split_on-join b'/' segment segments free)
      (All-map {P = IsSegment} (λ s h. h.1) (segment ∷ segments) h)

resolve_dot_segments-IsPlain :
    (path : Text) → All IsPlain (split_on b'/' (resolve_dot_segments path))
unfolding resolve_dot_segments
resolve_dot_segments-IsPlain path =
    split_on-IsPlain (resolved_segments path) (resolved_segments-IsSegment path)

-- No segment of a normalised path is `.` or `..`.
pub normalize_path-IsPlain :
    (raw_path : Text) → All IsPlain (split_on b'/' (normalize_path raw_path))
unfolding normalize_path
normalize_path-IsPlain raw_path =
    or_slash-IsPlain
      (resolve_dot_segments (collapse_slashes false (normalize_pct_encoding (or_slash raw_path))))
      (resolve_dot_segments-IsPlain
        (collapse_slashes false (normalize_pct_encoding (or_slash raw_path))))
