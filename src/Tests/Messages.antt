-- ===== src/Tests/Messages.antt =====
-- `save_message` and `list_messages` on a short conversation.
use folioo_ai.Base.{◌≡◌, refl, some, none, [], ◌∷◌, arith, true}
use folioo_ai.Repository.Messages.{MessageTable, NewMessage, save_message, list_messages}
use folioo_ai.Repository.Laws.Cursor.{IsNumbered}
use folioo_ai.Repository.Laws.Pages.{history, read_pages, read_pages_all}

abbrev hello : NewMessage
hello = record {
  user_message = some "hello";
  ai_responses = "hi" ∷ [];
  attachments = none;
  status = "completed";
  can_revert = some true;
  channel = "WEB";
}

talk : MessageTable
unfolding save_message
talk = save_message 30 7 70 502 hello (
    save_message 20 8 80 900 hello (
      save_message 10 7 70 501 hello
        (save_message 5 7 70 500 hello (record { rows = []; next_id = 1 }))))

-- Three of the four messages are of the session; a page of two leaves one.
two_pages : (list_messages 7 70 none 2 talk).1 ≡ some 2
unfolding list_messages talk
two_pages = refl

talk-IsNumbered : IsNumbered talk
unfolding talk
talk-IsNumbered = omega arith

read_pages_all_example : read_pages 7 70 2 talk 9 none ≡ history 7 70 2 talk
unfolding talk
read_pages_all_example = read_pages_all 7 70 1 talk talk-IsNumbered 9 (omega arith)
