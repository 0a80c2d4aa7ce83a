-- ===== src/Sftp/Browser/Requests.antt =====
-- src/app/state/sftp.rs: every history of requests keeps the browser well formed, an old answer is
-- not taken for the newest request's.
use ax_ssh.Prelude.{
  ℕ, ◌<◌, ◌^◌, true, ◌≡◌, ◌≢◌, ◌↔◌, refl, ◌⊎◌, inl, inr, Option, none, some, List, [], ◌∷◌, arith,
}
use ax_ssh.Prelude.Bytes.{Text}
use ax_ssh.Prelude.Words.{next_request_id, wrapping_succ}
use ax_ssh.Sftp.Browser.{
  Browser, closed, SftpNavigation, Begun, begun, not_begun, begin_navigation, begin_load_more,
  cancel_navigation, reset_navigation, complete_navigation, NavigationError, prepare_for_reconnect,
  requesting, accepts_request, request_in_progress,
}
use ax_ssh.Sftp.Browser.History.{IsHistory, empty-IsHistory, complete_directory_history-Both}

-- A directory is awaited only by a request in progress, and the numbers of requests are words.
pub record IsBrowsing (s : Browser) : Type 0 where
  pub back_is : IsHistory s.back_history
  pub forward_is : IsHistory s.forward_history
  pub awaited : (s.pending_navigation ≡ none) ⊎ (s.loading ≡ true)
  pub word : s.request_id < 2 ^ 64

-- What the view and the connection ask of the browser.
pub data Navigating : Type 0 where
  navigate : SftpNavigation → Option Text → Navigating
  load_more cancel_request reset_view reconnect : Navigating
  arrived : Text → Navigating

abbrev pub after : Begun → Browser → Browser
after (begun id path s') s = s'
after (not_begun e) s = s

abbrev pub after_more : NavigationError ⊎ (ℕ × Browser) → Browser → Browser
after_more (inl e) s = s
after_more (inr (id, s')) s = s'

unfoldable pub browse : Navigating → Browser → Browser
unfolding begin_navigation begin_load_more cancel_navigation reset_navigation complete_navigation
    prepare_for_reconnect
browse (navigate kind path) s = after (begin_navigation kind path s) s
browse load_more s = after_more (begin_load_more s) s
browse cancel_request s = cancel_navigation s
browse reset_view s = reset_navigation s
browse (arrived path) s = complete_navigation path s
browse reconnect s = prepare_for_reconnect s

unfoldable pub browse_all : List Navigating → Browser → Browser
unfolding browse
browse_all [] s = s
browse_all (x ∷ xs) s = browse_all xs (browse x s)

next_request_id_word : (n : ℕ) → next_request_id n < 2 ^ 64
unfolding next_request_id
next_request_id_word n = unfold wrapping_succ in ground arith

begin_navigation-IsBrowsing :
    (kind : SftpNavigation) (path : Option Text) (s : Browser)
    → IsBrowsing s
    → IsBrowsing (after (begin_navigation kind path s) s)
unfolding begin_navigation requesting
begin_navigation-IsBrowsing kind path s v = ground (arith, next_request_id_word s.request_id)

begin_load_more-IsBrowsing :
    (s : Browser) → IsBrowsing s → IsBrowsing (after_more (begin_load_more s) s)
unfolding begin_load_more
begin_load_more-IsBrowsing s v = ground (arith, next_request_id_word s.request_id)

complete_navigation-IsBrowsing :
    (path : Text) (s : Browser) → IsBrowsing s → IsBrowsing (complete_navigation path s)
unfolding complete_navigation
complete_navigation-IsBrowsing path s v =
    let both =
      complete_directory_history-Both s.pending_navigation path s.back_history s.forward_history
        (v.back_is, v.forward_is) in
    record { back_is = both.0; forward_is = both.1; awaited = inl refl; word = v.word }

reset_navigation-IsBrowsing : (s : Browser) → IsBrowsing s → IsBrowsing (reset_navigation s)
unfolding reset_navigation
reset_navigation-IsBrowsing s v = record {
  back_is = empty-IsHistory;
  forward_is = empty-IsHistory;
  awaited = inl refl;
  word = next_request_id_word s.request_id;
}

browse-IsBrowsing : (x : Navigating) (s : Browser) → IsBrowsing s → IsBrowsing (browse x s)
unfolding browse
browse-IsBrowsing (navigate kind path) s v = begin_navigation-IsBrowsing kind path s v
browse-IsBrowsing load_more s v = begin_load_more-IsBrowsing s v
browse-IsBrowsing cancel_request s v =
    unfold cancel_navigation in
    record { back_is = v.back_is; forward_is = v.forward_is; awaited = inl refl; word = v.word }
browse-IsBrowsing reset_view s v = reset_navigation-IsBrowsing s v
browse-IsBrowsing (arrived path) s v = complete_navigation-IsBrowsing path s v
browse-IsBrowsing reconnect s v =
    unfold prepare_for_reconnect in
    (let r = reset_navigation-IsBrowsing s v in
      record {
        back_is = r.back_is;
        forward_is = r.forward_is;
        awaited = unfold reset_navigation in inl refl;
        word = r.word;
      })

browse_all-kept : (xs : List Navigating) (s : Browser) → IsBrowsing s → IsBrowsing (browse_all xs s)
unfolding browse_all
browse_all-kept [] s v = v
browse_all-kept (x ∷ xs) s v = browse_all-kept xs (browse x s) (browse-IsBrowsing x s v)

-- After any sequence of requests, answers, cancellations and resets of a new browser, each history
-- has at most 128 paths, none empty and none twice in a row, and a directory is awaited only while a
-- request is in progress.
pub browse_all-IsBrowsing : (xs : List Navigating) → IsBrowsing (browse_all xs closed)
browse_all-IsBrowsing xs = browse_all-kept xs closed (record {
  back_is = empty-IsHistory;
  forward_is = empty-IsHistory;
  awaited = inl refl;
  word = omega arith;
})

-- While a navigation that was begun is in progress, with numbers of requests that are 64-bit
-- words, an answer with a number is taken exactly if the number is the navigation's, which is not
-- that of the request before it; an answer without a number is always taken; and no other request
-- is begun.
pub begin_navigation-accepts :
    (kind : SftpNavigation) (path : Option Text) (s s' : Browser) (id : ℕ) (requested : Text)
    → begin_navigation kind path s ≡ begun id requested s'
    → s.request_id < 2 ^ 64
    → ((n : ℕ) → (accepts_request (some n) s' ≡ true) ↔ (n ≡ id))
      × (id ≢ s.request_id)
      × (accepts_request none s' ≡ true)
      × (begin_load_more s' ≡ inl request_in_progress)
      × ((k : SftpNavigation) (p : Option Text)
          → begin_navigation k p s' ≡ not_begun request_in_progress)
unfolding begin_navigation requesting accepts_request begin_load_more
begin_navigation-accepts kind path s s' id requested h w =
    let other : next_request_id s.request_id ≢ s.request_id = other_request s.request_id w in
    (
      (λ n. ((λ e. ground arith), (λ e. ground arith))),
      (λ e. ground arith),
      refl,
      ground arith,
      (λ k p. ground arith),
    )
  where
    other_request : (n : ℕ) → n < 2 ^ 64 → next_request_id n ≢ n
    other_request n h e = unfold next_request_id in unfold wrapping_succ in ground arith
