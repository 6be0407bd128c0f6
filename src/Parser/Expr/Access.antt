-- ===== src/Parser/Expr/Access.antt =====
-- The calls, and the instructions on variables, constants and the memory, in `parse_expr` of
-- lib/fizzy/parser_expr.cpp keep the invariant of the loop.
use fizzy.Common.{ℕ, suc, ◌*◌, refl, get_elem?, get_elem?-lt, ltb→lt, leb, ◌==◌}
use fizzy.Common.{asserted, validation_error, parser_error}
use fizzy.Instr
use fizzy.Common.{call_indirect_table, excessive_alignment, memory_required, memory_index}
use fizzy.Instructions.{instruction_max_align}
use fizzy.Module.{has_table, has_memory, get_function_type, get_global_type}
use fizzy.Parser.Basic.{parse_byte, parse_u32, parse_value}
use fizzy.Leb128.{leb128s_decode}
use fizzy.Parser.Expr.Stacks.{from_valtype}
use fizzy.Parser.Expr.State.{ExprContext, ExprState, apply_type, drop_type, find_local_type}
use fizzy.Parser.Expr.Handlers.{
  handle_call, handle_call_indirect, handle_local_get, handle_local_set, handle_local_tee,
  handle_global_get, handle_global_set, handle_int_const, handle_float_const, handle_memory_access,
  handle_memory,
}
use fizzy.Parser.Expr.Keeps.{
  Open, push_opcode-Open, push_operand-Open, apply_type-Open, drop_type-Open,
}
use fizzy.Parser.Expr.Gives.{
  Gives, ensure-Gives, return-Gives, parse_byte-Plain, parse_u32-Plain, parse_value-Plain,
  leb128s_decode-Plain,
}
use fizzy.Parser.Expr.Lookups.{
  IsTyped, asserted-some, find_local_type-Yields, get_function_type-some, get_global_type-some,
}
use fizzy.Parser.Expr.Handling.{after, after_lift, instruction-Open}

module _ (n : ℕ) where
  pub handle_call-Gives :
      (ctx : ExprContext)
      → IsTyped ctx.parsed
      → (s : ExprState) → Open (suc n) s
      → Gives (Open (suc n)) (handle_call ctx s)
  unfolding handle_call
  handle_call-Gives ctx typed s h = after (Open (suc n)) parse_u32 _ parse_u32-Plain λ callee.
      ensure-Gives (Open (suc n)) _ _ _ refl λ small.
        after_lift (Open (suc n)) (λ _. Unit {0}) (asserted (get_function_type ctx.parsed callee)) _
          (asserted-some (get_function_type ctx.parsed callee)
            (get_function_type-some ctx.parsed callee typed (ltb→lt _ _ small)))
          λ type u.
            after_lift (Open (suc n)) (Open (suc n)) (apply_type type.inputs type.outputs s) _
              (apply_type-Open n type.inputs type.outputs s h)
              λ s' h'. instruction-Open (suc n) Instr.call 4 callee s' h'

  pub handle_call_indirect-Gives :
      (ctx : ExprContext) (s : ExprState)
      → Open (suc n) s
      → Gives (Open (suc n)) (handle_call_indirect ctx s)
  unfolding handle_call_indirect
  handle_call_indirect-Gives ctx s h =
      ensure-Gives (Open (suc n)) (has_table ctx.parsed) (validation_error call_indirect_table) _
        refl
        λ table. after (Open (suc n)) parse_u32 _ parse_u32-Plain λ type_idx.
          ensure-Gives (Open (suc n)) _ _ _ refl λ small.
            after_lift (Open (suc n)) (λ _. Unit {0})
              (asserted (get_elem? ctx.parsed.typesec type_idx)) _
              (asserted-some (get_elem? ctx.parsed.typesec type_idx)
                (get_elem?-lt ctx.parsed.typesec type_idx (ltb→lt _ _ small)))
              λ type u.
                after_lift (Open (suc n)) (Open (suc n)) (apply_type type.inputs type.outputs s) _
                  (apply_type-Open n type.inputs type.outputs s h)
                  λ s' h'. after (Open (suc n)) parse_byte _ parse_byte-Plain λ table_idx.
                    ensure-Gives (Open (suc n)) _ _ _ refl
                      λ zeroth. instruction-Open (suc n) Instr.call_indirect 4 type_idx s' h'

  pub handle_local_get-Gives :
      (ctx : ExprContext) (s : ExprState)
      → Open (suc n) s
      → Gives (Open (suc n)) (handle_local_get ctx s)
  unfolding handle_local_get
  handle_local_get-Gives ctx s h = after (Open (suc n)) parse_u32 _ parse_u32-Plain λ idx.
      after_lift (Open (suc n)) (λ _. Unit {0}) (find_local_type ctx.func_inputs ctx.locals idx) _
        (find_local_type-Yields ctx.func_inputs ctx.locals idx)
        λ type u.
          instruction-Open (suc n) Instr.local_get 4 idx _
            (push_operand-Open (suc n) (from_valtype type) s h)

  pub handle_local_set-Gives :
      (ctx : ExprContext) (s : ExprState)
      → Open (suc n) s
      → Gives (Open (suc n)) (handle_local_set ctx s)
  unfolding handle_local_set
  handle_local_set-Gives ctx s h = after (Open (suc n)) parse_u32 _ parse_u32-Plain λ idx.
      after_lift (Open (suc n)) (λ _. Unit {0}) (find_local_type ctx.func_inputs ctx.locals idx) _
        (find_local_type-Yields ctx.func_inputs ctx.locals idx)
        λ type u.
          after_lift (Open (suc n)) (Open (suc n)) (drop_type (from_valtype type) s) _
            (drop_type-Open n (from_valtype type) s h)
            λ s' h'. instruction-Open (suc n) Instr.local_set 4 idx s' h'

  pub handle_local_tee-Gives :
      (ctx : ExprContext) (s : ExprState)
      → Open (suc n) s
      → Gives (Open (suc n)) (handle_local_tee ctx s)
  unfolding handle_local_tee
  handle_local_tee-Gives ctx s h = after (Open (suc n)) parse_u32 _ parse_u32-Plain λ idx.
      after_lift (Open (suc n)) (λ _. Unit {0}) (find_local_type ctx.func_inputs ctx.locals idx) _
        (find_local_type-Yields ctx.func_inputs ctx.locals idx)
        λ type u.
          after_lift (Open (suc n)) (Open (suc n)) (drop_type (from_valtype type) s) _
            (drop_type-Open n (from_valtype type) s h)
            λ s' h'.
              instruction-Open (suc n) Instr.local_tee 4 idx _
                (push_operand-Open (suc n) (from_valtype type) s' h')

  pub handle_global_get-Gives :
      (ctx : ExprContext) (s : ExprState)
      → Open (suc n) s
      → Gives (Open (suc n)) (handle_global_get ctx s)
  unfolding handle_global_get
  handle_global_get-Gives ctx s h = after (Open (suc n)) parse_u32 _ parse_u32-Plain λ idx.
      ensure-Gives (Open (suc n)) _ _ _ refl λ small.
        after_lift (Open (suc n)) (λ _. Unit {0}) (asserted (get_global_type ctx.parsed idx)) _
          (asserted-some (get_global_type ctx.parsed idx)
            (get_global_type-some ctx.parsed idx (ltb→lt _ _ small)))
          λ type u.
            instruction-Open (suc n) Instr.global_get 4 idx _
              (push_operand-Open (suc n) (from_valtype type.value_type) s h)

  pub handle_global_set-Gives :
      (ctx : ExprContext) (s : ExprState)
      → Open (suc n) s
      → Gives (Open (suc n)) (handle_global_set ctx s)
  unfolding handle_global_set
  handle_global_set-Gives ctx s h = after (Open (suc n)) parse_u32 _ parse_u32-Plain λ idx.
      ensure-Gives (Open (suc n)) _ _ _ refl λ small.
        after_lift (Open (suc n)) (λ _. Unit {0}) (asserted (get_global_type ctx.parsed idx)) _
          (asserted-some (get_global_type ctx.parsed idx)
            (get_global_type-some ctx.parsed idx (ltb→lt _ _ small)))
          λ type u. ensure-Gives (Open (suc n)) _ _ _ refl λ mutable.
            after_lift (Open (suc n)) (Open (suc n)) (drop_type (from_valtype type.value_type) s) _
              (drop_type-Open n (from_valtype type.value_type) s h)
              λ s' h'. instruction-Open (suc n) Instr.global_set 4 idx s' h'

  pub handle_int_const-Gives :
      (opcode bytes : ℕ) (s : ExprState)
      → Open (suc n) s
      → Gives (Open (suc n)) (handle_int_const opcode bytes s)
  unfolding handle_int_const
  handle_int_const-Gives opcode bytes s h =
      after (Open (suc n)) (leb128s_decode (8 * bytes)) _ (leb128s_decode-Plain (8 * bytes))
        λ value. instruction-Open (suc n) opcode bytes value s h

  pub handle_float_const-Gives :
      (opcode bytes : ℕ) (s : ExprState)
      → Open (suc n) s
      → Gives (Open (suc n)) (handle_float_const opcode bytes s)
  unfolding handle_float_const
  handle_float_const-Gives opcode bytes s h =
      after (Open (suc n)) (parse_value bytes) _ (parse_value-Plain bytes)
        λ value. instruction-Open (suc n) opcode bytes value s h

  pub handle_memory_access-Gives :
      (ctx : ExprContext) (opcode : ℕ) (s : ExprState)
      → Open (suc n) s
      → Gives (Open (suc n)) (handle_memory_access ctx opcode s)
  unfolding handle_memory_access
  handle_memory_access-Gives ctx opcode s h =
      after (Open (suc n)) parse_u32 _ parse_u32-Plain λ align.
        ensure-Gives (Open (suc n)) (leb align (instruction_max_align opcode))
          (validation_error excessive_alignment) _ refl
          λ aligned. after (Open (suc n)) parse_u32 _ parse_u32-Plain λ offset.
            ensure-Gives (Open (suc n)) (has_memory ctx.parsed) (validation_error memory_required) _
              refl λ memory. instruction-Open (suc n) opcode 4 offset s h

  pub handle_memory-Gives :
      (ctx : ExprContext) (opcode : ℕ) (s : ExprState)
      → Open (suc n) s
      → Gives (Open (suc n)) (handle_memory ctx opcode s)
  unfolding handle_memory
  handle_memory-Gives ctx opcode s h = after (Open (suc n)) parse_byte _ parse_byte-Plain λ idx.
      ensure-Gives (Open (suc n)) (idx == 0) (parser_error memory_index) _ refl λ zeroth.
        ensure-Gives (Open (suc n)) (has_memory ctx.parsed) (validation_error memory_required) _
          refl λ memory. return-Gives (Open (suc n)) _ (push_opcode-Open (suc n) opcode s h)
