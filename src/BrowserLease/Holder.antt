-- ===== src/BrowserLease/Holder.antt =====
-- The holder file: what `write_holder` writes is what `read_holder` and `holder_live` read, in
-- crates/agentplug-host/src/browser_lease.rs.
use agentplug.Base.{ℕ, ◌-◌, ◌%◌, ◌^◌, ◌<◌, ltb, true, some, if◌then◌else◌, ◌≡◌, refl, inl, inr}
use agentplug.Base.{arith}
use agentplug.Base.Tests.{Bool-cases}
use agentplug.Base.Maps.{Text, text_key, text_eq, text_eq_iff, lookup, lookup-insert}
use agentplug.Verbs.Json.{Value, get}
use agentplug.BrowserLease.{
  LeaseHolder, OwnerFile, World, Host, read_holder, write_holder, holder_live, to_value,
  holder_from, holder_in, holder_read, int_field, effective_ttl, members,
}

-- The fields are in the range of their types, and the ttl is one that `effective_ttl` answers with.
pub record Fits (h : LeaseHolder) : Type 0 where
  pub pid_fits : h.pid < 2 ^ 32
  pub browser_pid_fits : h.browser_pid < 2 ^ 32
  pub port_fits : h.port < 2 ^ 16
  pub ttl_some : 0 < h.ttl_ms

in_u32 : (n : ℕ) → n < 2 ^ 32 → n % 2 ^ 32 ≡ n
in_u32 n h = omega arith

in_u16 : (n : ℕ) → n < 2 ^ 16 → n % 2 ^ 16 ≡ n
in_u16 n h = omega arith

pub effective_ttl-pos : (ttl : ℕ) → 0 < ttl → effective_ttl ttl ≡ ttl
unfolding effective_ttl
effective_ttl-pos ttl h = ground arith

pub text_eq-same : (a : Text) → text_eq a a ≡ true
text_eq-same a = (text_eq_iff a a).1 refl

module _ {Doc : Type 0} (host : Host Doc) where
  -- serde_json's parser reads what its printer wrote.
  abbrev pub Printed : Type 0
  Printed = (v : Value) → host.parse (host.print v) ≡ some v

  holder_from-to_value :
      (h : LeaseHolder) → Fits h → holder_from host (some (to_value host h)) ≡ some h
  unfolding holder_from holder_in to_value members int_field get
  holder_from-to_value h fits =
      rw
        (
          in_u32 h.pid fits.pid_fits,
          in_u32 h.browser_pid fits.browser_pid_fits,
          in_u16 h.port fits.port_fits,
          effective_ttl-pos h.ttl_ms fits.ttl_some,
        )
        refl

  abbrev pub holder_file : LeaseHolder → ℕ → OwnerFile Doc
  holder_file h now = record { contents = host.print (to_value host h); modified = now }

  pub lookup-write_holder :
      (root j : Text) (h : LeaseHolder) (now : ℕ) (w : World Doc)
      → lookup j (write_holder host root h now w).owner_files
        ≡ (if text_eq root j then some (holder_file h now) else lookup j w.owner_files)
  unfolding write_holder
  lookup-write_holder root j h now w = lookup-insert root j (holder_file h now) w.owner_files

  holder_read-file :
      (h : LeaseHolder) (now : ℕ)
      → Printed
      → Fits h
      → holder_read host (some (holder_file h now)) ≡ some h
  unfolding holder_read
  holder_read-file h now printed fits = rw (printed (to_value host h)) (holder_from-to_value h fits)

  -- A holder that fits its types is read back as it was written, and the holders of other roots are
  -- read as before.
  pub read_holder-write_holder :
      (root j : Text) (h : LeaseHolder) (now : ℕ) (w : World Doc)
      → Printed
      → Fits h
      → read_holder host j (write_holder host root h now w)
        ≡ (if text_eq root j then some h else read_holder host j w)
  unfolding read_holder
  read_holder-write_holder root j h now w printed fits =
      rw (lookup-write_holder root j h now w) (elim (Bool-cases (text_eq root j)) [
        | inl same ↦ rw same (holder_read-file h now printed fits)
        | inr other ↦ rw other refl
      ])

  -- What a process has just written is its own, and is live for as long as its ttl.
  pub holder_live-write_holder :
      (root : Text) (h : LeaseHolder) (now later : ℕ) (w : World Doc)
      → Printed
      → Fits h
      → holder_live host root h.ttl_ms later (write_holder host root h now w)
        ≡ ltb (later - h.heartbeat_at_ms) h.ttl_ms
  unfolding holder_live
  holder_live-write_holder root h now later w printed fits =
      rw
        (
          read_holder-write_holder root root h now w printed fits,
          text_eq-same root,
          effective_ttl-pos h.ttl_ms fits.ttl_some,
        )
        refl
