-- ===== src/Lib.antt =====
-- A verification library for cloudeng.io/go.pkgs: models of its packages' own algorithms and data
-- structures, and the theorems that make them correct. Go's `int` and `int64` are 64 bits wide.
--
-- The parts, the files that model them, and how they correspond to the code:
--
--   - Common: names and lemmas that all share. `Option` is the result of code that may panic (`none` is
--     an index out of range, a nil pointer, a close of a closed channel, or a loop whose fuel ran out);
--     a theorem on such code shows `some`. Common/Int has Go's signed integers and the int64 wrap.
--   - Bitmap (algo/container/bitmap/bitmap.go): `T` is a list of words below 2^64; each method is the
--     function of the same name in snake case, and returns the new slice where Go writes in place.
--     NextSet and NextClear run on fuel `last + 1`, one round for each index at most. Sizes are at most
--     2^63 - 64, where `size + 63` of New does not wrap, and the callers of AllSet and AllClear do not
--     change the bitmap while they iterate. The JSON encoding is not modelled.
--   - Contiguous (algo/container/bitmap/contiguous.go): the tracker of the run of set bits at the start
--     of a bitmap. The bitmap, which the owner shares, and the channels live in a `Store`; a channel
--     is known by whether it is closed. `extend` runs on one round for each index up to `last`.
--   - LargeFile (file/largefile): ranges and blocks of large_file.go with 64-bit wrap-around written
--     out, and byteRanges and ByteRanges of byte_ranges.go. A lock makes each method one step. The
--     client LargeFile.ByteRanges uses Contiguous through the laws of its children.
--   - Heap (algo/container/heap/heap.go): `T` is the record `Heap`, with the calls of the callback in
--     order; the keys are compared by a Boolean test, which the theorems take as an `Order`. siftUp runs
--     on one round for each index, siftDown on one for each index below its limit. Heap/Rearrange and
--     Heap/Holes are the order with a hole at one index, Heap/Sift that sifting fills it.
--   - Datetime (datetime): packed dates as numbers with Go's shifts and masks as division and remainder;
--     Year and YearDay are yearplace.go, Dates dates.go, Calendar calendar.go, Ranges date_range.go,
--     TimeOfDay timeofday.go. A year of Date is a natural number; the packed ones have 16 bits. Text
--     and the time package are not modelled.
--   - Circular (algo/container/circular/buffer.go): `Buffer` with its storage, head and tail, the tail an
--     integer since an empty Append leaves -1. `move_to` is the copying that grow and Compact share.
--     Circular/Queue says what a buffer holds, Circular/Refine compares any calls with a queue.
--   - Lcs (algo/lcs): `Dp` is DP of dp.go with its table of directions; fill is two counting loops, and
--     backtrack, backtrackAll and diff run on one round for each step left or up. Edit scripts are
--     edit.go. Elements are compared by an `Equality` (Common/Equality); the lengths in the table do not
--     overflow, and a DP is one that NewDP made (not a zero value, whose directions are nil). Printing
--     and Myers' algorithm are not modelled.
--   - Lists (algo/container/list): items at addresses, their fields as functions from addresses and the
--     sentinel at 0, for `Double` (double.go) and `Single` (single.go). The loops over items take fuel;
--     Lists/Entries is the sequence of IDs and elements that the lists are compared with, Lists/Ring
--     what redirecting a link does to a ring. Lists are those that NewDouble and NewSingle return.
--   - Vms (vms/vms.go): the table of transitions, CleanupVM and the loop of WaitForStateFunc over an
--     `Instance`, a parameter whose operations take and give a world. Vms/Allowed adds to the world a
--     log of the calls of Stop and Delete. A nil instance, the polling interval and the deadline are not
--     modelled.
--   - Boolexpr (cmdutil/boolexpr/expression.go; parser.go is Boolexpr/Tokenizer): items as a sum,
--     the channel of New as a list of which newExpression returns the rest, and the evaluator. An
--     error that New returns is the inner `none`; newExpression runs on one round for each item.
--     Boolexpr/Build/Guarded says which item may follow which.
--     What an operand's Eval and Prepare do is a parameter. The tokenizer is a step for each state
--     over runes as numbers, with the classes of runes of the package unicode as a parameter. Not
--     modelled: the table of operands, Needs, String of expressions.
pub mod Common
pub mod Bitmap
pub mod Boolexpr
pub mod Circular
pub mod Contiguous
pub mod Heap
pub mod Datetime
pub mod LargeFile
pub mod Lcs
pub mod Lists
pub mod Vms
