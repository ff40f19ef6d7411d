-- ===== src/Lib.antt =====
-- HiveWiki: a wiki and community site in Django. A development that models the program's rules about
-- users, sessions, logins, notifications and content, and proves what they guarantee.
--
-- The program has two applications and a configuration. apps/accounts keeps users, OAuth accounts,
-- sessions, the limit on failed logins and notifications. apps/core keeps wiki pages, community posts
-- and the admin console, which calls apps/accounts to end the sessions of the users it suspends or
-- removes, as the community's views call it to notify the authors of posts and comments. config has
-- the settings, the logging and the health checks. The state is in a database, in a cache and in a
-- session store; every request runs on these alone.
--
-- Files and what they model:
--   Base        native numbers, lists, rows of a table under a condition (the ORM's filter, exists,
--               count, first, update and delete), text as code points with the methods of `str`,
--               dicts keyed by text.
--   Django      what the program uses of Django: Django.Cache is `django.core.cache.cache` and
--               Django.Sessions the session store, both interfaces with the laws that the program
--               relies on and an instance that meets them.
--   Accounts.Models         apps/accounts/models.py: the rows.
--   Accounts.Directory      the tables of users and OAuth accounts and the queries on them.
--   Accounts.Sessions       apps/accounts/services.py: _get_tracked_session_keys,
--               _store_tracked_session_keys, register_user_session, unregister_user_session and
--               purge_user_sessions.
--   Accounts.RateLimit      apps/accounts/services.py: record_failed_login, is_login_rate_limited,
--               reset_login_rate_limit and their helpers.
--   Accounts.Notifications  apps/accounts/notifications.py: create_notification,
--               get_unread_notification_count, mark_notification_read, mark_all_notifications_read;
--               Body has _trim_notification_body and Notify the three notify_ functions, each as the
--               list of calls of create_notification that it makes, and the loop that makes them; Targets has
--               attach_notification_targets.
--   Accounts.OAuth          apps/accounts/services.py: link_oauth_account_to_user,
--               _build_unique_username (with sixteen rounds for each user and two more: a user blocks
--               one suffix for each length of the prefix) and
--               get_or_create_user_from_oauth_profile.
--   Accounts.Login          apps/accounts/views.py: login_view for a posted, valid form, with
--               authenticate_user, login_user and get_current_user of apps/accounts/services.py.
--   Core.Models             apps/core/models.py: the rows of tags, posts and comments, and the properties
--               `title` and `summary`.
--   Core.CommunityContent   apps/core/community_content.py: title, body, excerpt and images of a
--               post, links to wiki pages.
--   Core.WikiMarkdown       apps/core/wiki_markdown.py: headings, their ids, the table of contents.
--   Core.AdminUsers         apps/core/views.py: admin_user_action, _apply_admin_user_action and their
--               helpers.
--   Core.Forms              apps/core/forms.py: the cleaning of fields, TagForm.clean_slug,
--               PostForm._get_or_create_tag (with the twenty attempts of the code) and
--               PostForm.save. Other requests may write to the tags between two attempts.
--   Core.Reactions          apps/core/views.py: the toggles of likes and bookmarks, and which posts a
--               user sees (_community_visible_posts_queryset).
--   Core.Comments           apps/core/views.py: community_comment_create, community_comment_edit,
--               _get_comment_tree, _get_child_comments and _get_comment_ancestor_ids (with
--               a round for each comment and two more).
--   Core.WikiEmbeddings     apps/core/wiki_embeddings.py: sync_wiki_document_embedding with all that it
--               calls; the numbers are a parameter, with the operations on them.
--   Core.LinkedWiki         apps/core/views.py: _get_wiki_documents_for_post and
--               _attach_linked_wiki_documents.
--   Accounts.OAuthFlow      apps/accounts/services.py and views.py: the providers, the exchange of a code
--               (Exchange) and the three views (Views, Callback, Confirm); Steps has the requests of
--               a session.
--   Accounts.Middleware     apps/accounts/middleware.py and decorators.py, logout_user and
--               set_browser_timezone.
--   Accounts.Forms          apps/accounts/forms.py, with create_user, update_user_password and the three
--               views behind the forms (Views).
--   Accounts.Uploads        apps/accounts/services.py: build_profile_image_upload_payload with all that
--               it calls, and profile_image_upload_prepare_view.
--   Config.Healthchecks     config/healthchecks.py: the middleware for the health checks.
--   Core.Ingestion          apps/core/views.py: admin_ingestion_management with
--               _classify_source_health, and admin_source_edit_modal (Sources).
--   Core.AdminContent       apps/core/views.py: admin_post_action, admin_wiki_action and the functions
--               that apply the actions.
-- In each part a child module has the proofs of one theme, and Tests has runs at concrete inputs.
--
-- Conventions. A UUID is the natural number that it stands for, and a time is a number of microseconds.
-- Code that is not in the repository is a parameter: the cache, the session store, `slugify`,
-- `str.lower`, `check_password`, the database's comparison without case, `hashlib.sha256`, `str` of a
-- UUID, the class `\w` of regular expressions. The clock stands still within one call.
-- Requests run one after the other, but for the attempts to create a tag, between which others may
-- write. The laws of the cache leave out that it drops entries for lack of memory.
-- The index of sessions keys the cache by the user's id, which the program writes behind a fixed
-- prefix. A save of a row writes the columns that the call names, in the row of that primary key; the
-- unique constraints of the users' table are written out where a save can break them.
-- Fuel: a substitution by a regular expression takes as many rounds as the text has characters, and
-- each round takes one at least; the digits of n take at most n + 1 rounds.
--
-- Not modelled: templates and rendering, the settings and URL tables, logging and metrics, search, the widgets of forms, the similarity of
-- embeddings, the handlers of signals, and the views other than those named.
pub mod Accounts
pub mod Base
pub mod Config
pub mod Core
pub mod Django
